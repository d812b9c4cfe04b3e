-- ===== src/Priming/Tests.antt =====
-- A body in two chunks, one event of which is split between them.
use muxvia.Prelude.{◌≡◌, refl, false, [], ◌++◌, some, Bytes, arith}
use muxvia.Text.{codes}
use muxvia.Sse.{EventClass, classify_sse_event, find_boundary}
use muxvia.Sse.Boundary.{find_boundary-append}
use muxvia.Domain.{codex}
use muxvia.Priming.{Body, finish, chunk, at_once, is_late, prime_loop}
use muxvia.Priming.Chunks.{verdict, verdict_of, bytes_before_fault, IsTimely}
use muxvia.Priming.Complete.{prime_loop-classify_complete}
use muxvia.Priming.Terminating.{ScanRuns, CompleteRuns, loops-terminate}
use muxvia.Priming.{scan_events}
use muxvia.Sse.{classify_complete, complete_loop, lifecycle}
use muxvia.Samples.{typed_json}

abbrev split_body : Body
split_body =
    chunk at_once (codes "data: response.created\n\ndata: x")
      (chunk at_once (codes "y\n\n") (finish at_once))

abbrev codex_class : Bytes → EventClass
codex_class event = classify_sse_event typed_json event codex false

split_body-IsTimely : IsTimely 0 split_body
unfolding is_late
split_body-IsTimely = (refl, omega arith, (refl, omega arith, refl))

prime_loop-classify_complete_example :
    verdict (prime_loop codex_class split_body [] [] 0)
    ≡ verdict_of (classify_complete codex_class (bytes_before_fault split_body))
prime_loop-classify_complete_example =
    prime_loop-classify_complete codex_class split_body split_body-IsTimely

find_boundary-append_example : find_boundary (codes "a\n\n" ++ codes "\r\n\r\n") ≡ some (1, 2)
find_boundary-append_example =
    find_boundary-append (codes "a\n\n") (codes "\r\n\r\n") (1, 2) (unfold find_boundary in refl)

loops-terminate_example :
    ScanRuns codex_class (codes "x\n\ny\n\n") 3 (scan_events codex_class 3 (codes "x\n\ny\n\n") 3)
    × CompleteRuns codex_class
        (codes "x\n\ny\n\n")
        3
        lifecycle
        (complete_loop codex_class 3 (codes "x\n\ny\n\n") 3 lifecycle)
loops-terminate_example =
    loops-terminate codex_class (codes "x\n\ny\n\n") 3 3 lifecycle (omega arith) (omega arith)
