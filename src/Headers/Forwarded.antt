-- ===== src/Headers/Forwarded.antt =====
-- The values that a forwarded header map has under every name.
use muxvia.Prelude.{
  ◌≡◌, refl, ap, sym, ◌∙◌, Bool, true, false, not, ◌&&◌, ◌||◌, List, [], ◌∷◌, ◌++◌, append-nil,
  append_assoc, bytes_eq, bytes_eq_iff, if◌then◌else◌, Bool-cases, inl, inr,
}
use muxvia.Text.{Text, codes, starts_with}
use muxvia.Http.{HttpLib}
use muxvia.Headers.{contains, blocked_names, copy_entries, copy_except, forward_response_headers}

module _ (http : HttpLib) where
  open http use {HeaderMap, HeaderValue, new_map, iter, get_all, append, insert}

  -- The values of the entries under one name, in their order.
  abbrev pub values_under : List (Text × HeaderValue) → Text → List HeaderValue
  values_under [] k = []
  values_under ((name, value) ∷ rest) k =
      if bytes_eq name k then value ∷ values_under rest k else values_under rest k

  -- What the crate `http` documents of a header map.
  pub record IsHeaderMap : Type 0 where
    pub get_all-new_map : (k : Text) → get_all new_map k ≡ []
    pub get_all-iter : (m : HeaderMap) (k : Text) → get_all m k ≡ values_under (iter m) k
    pub get_all-append :
        (m : HeaderMap) (n : Text) (v : HeaderValue) (k : Text)
        → get_all (append m n v) k ≡ (if bytes_eq n k then get_all m k ++ v ∷ [] else get_all m k)
    pub get_all-insert :
        (m : HeaderMap) (n : Text) (v : HeaderValue) (k : Text)
        → get_all (insert m n v) k ≡ (if bytes_eq n k then v ∷ [] else get_all m k)

  abbrev pub withheld : List Text → Text → Bool
  withheld blocked k = contains blocked k || starts_with (codes "proxy-") k

  -- What a copy adds to the values under one name.
  abbrev pub passed : List Text → Text → List HeaderValue → List HeaderValue
  passed blocked k values = if withheld blocked k then [] else values

  copy_kept :
      (name : Text) (value : HeaderValue) (rest : List (Text × HeaderValue)) (blocked : List Text)
      (copied : HeaderMap)
      → withheld blocked name ≡ false
      → copy_entries http ((name, value) ∷ rest) blocked copied
        ≡ copy_entries http rest blocked (append copied name value)
  unfolding copy_entries
  copy_kept name value rest blocked copied h =
      either (contains blocked name) (starts_with (codes "proxy-") name) h
    where
      either :
          (b p : Bool)
          → (b || p) ≡ false
          → (if not b && not p
              then copy_entries http rest blocked (append copied name value)
              else copy_entries http rest blocked copied)
            ≡ copy_entries http rest blocked (append copied name value)
      either false false e = refl
      either true p e = cc e
      either false true e = cc e

  copy_left :
      (name : Text) (value : HeaderValue) (rest : List (Text × HeaderValue)) (blocked : List Text)
      (copied : HeaderMap)
      → withheld blocked name ≡ true
      → copy_entries http ((name, value) ∷ rest) blocked copied
        ≡ copy_entries http rest blocked copied
  unfolding copy_entries
  copy_left name value rest blocked copied h =
      either (contains blocked name) (starts_with (codes "proxy-") name) h
    where
      either :
          (b p : Bool)
          → (b || p) ≡ true
          → (if not b && not p
              then copy_entries http rest blocked (append copied name value)
              else copy_entries http rest blocked copied)
            ≡ copy_entries http rest blocked copied
      either false false e = cc e
      either true p e = refl
      either false true e = refl

  -- One entry of the map under a name, and how a copy takes it.
  passed_other :
      (name : Text) (value : HeaderValue) (rest : List (Text × HeaderValue)) (k : Text)
      → bytes_eq name k ≡ false
      → values_under ((name, value) ∷ rest) k ≡ values_under rest k
  passed_other name value rest k e = rw e refl

  passed_same :
      (name : Text) (value : HeaderValue) (rest : List (Text × HeaderValue)) (k : Text)
      → bytes_eq name k ≡ true
      → values_under ((name, value) ∷ rest) k ≡ value ∷ values_under rest k
  passed_same name value rest k e = rw e refl

  passed_open :
      (blocked : List Text) (k : Text) (values : List HeaderValue)
      → withheld blocked k ≡ false
      → passed blocked k values ≡ values
  passed_open blocked k values e = ap (λ b. if b then [] else values) e

  pub passed-withheld :
      (blocked : List Text) (k : Text) (values : List HeaderValue)
      → withheld blocked k ≡ true
      → passed blocked k values ≡ []
  passed-withheld blocked k values e = ap (λ b. if b then [] else values) e

  module _ (laws : IsHeaderMap) where
    append_same :
        (m : HeaderMap) (n : Text) (v : HeaderValue) (k : Text)
        → bytes_eq n k ≡ true
        → get_all (append m n v) k ≡ get_all m k ++ v ∷ []
    append_same m n v k e =
        laws.get_all-append m n v k ∙ ap (λ b. if b then get_all m k ++ v ∷ [] else get_all m k) e

    append_other :
        (m : HeaderMap) (n : Text) (v : HeaderValue) (k : Text)
        → bytes_eq n k ≡ false
        → get_all (append m n v) k ≡ get_all m k
    append_other m n v k e =
        laws.get_all-append m n v k ∙ ap (λ b. if b then get_all m k ++ v ∷ [] else get_all m k) e

    -- What the loop adds to a map, from the entries on.
    abbrev Copies : List (Text × HeaderValue) → List Text → Text → Type 0
    Copies entries blocked k =
        (copied : HeaderMap)
        → get_all (copy_entries http entries blocked copied) k
          ≡ get_all copied k ++ passed blocked k (values_under entries k)

    -- The entry has the name, which is passed on or withheld; or it has another one.
    copy_same :
        (name : Text) (value : HeaderValue) (rest : List (Text × HeaderValue)) (blocked : List Text)
        (copied : HeaderMap) (k : Text)
        → Copies rest blocked k
        → bytes_eq name k ≡ true
        → get_all (copy_entries http ((name, value) ∷ rest) blocked copied) k
          ≡ get_all copied k ++ passed blocked k (value ∷ values_under rest k)
    copy_same name value rest blocked copied k later e = elim (Bool-cases (withheld blocked k)) [
      | inl hidden ↦
          ap (λ m. get_all m k)
            (copy_left name value rest blocked copied
              (ap (withheld blocked) ((bytes_eq_iff name k).0 e) ∙ hidden))
          ∙ later copied
          ∙ ap (◌++◌ (get_all copied k))
              (passed-withheld blocked k _ hidden ∙ sym (passed-withheld blocked k _ hidden))
      | inr shown ↦
          ap (λ m. get_all m k)
            (copy_kept name value rest blocked copied
              (ap (withheld blocked) ((bytes_eq_iff name k).0 e) ∙ shown))
          ∙ later (append copied name value)
          ∙ ap (λ vs. vs ++ passed blocked k (values_under rest k))
              (append_same copied name value k e)
          ∙ append_assoc (get_all copied k) (value ∷ []) (passed blocked k (values_under rest k))
          ∙ ap (λ vs. get_all copied k ++ value ∷ vs)
              (passed_open blocked k (values_under rest k) shown)
          ∙ ap (◌++◌ (get_all copied k))
              (sym (passed_open blocked k (value ∷ values_under rest k) shown))
    ]

    copy_other :
        (name : Text) (value : HeaderValue) (rest : List (Text × HeaderValue)) (blocked : List Text)
        (copied : HeaderMap) (k : Text)
        → Copies rest blocked k
        → bytes_eq name k ≡ false
        → get_all (copy_entries http ((name, value) ∷ rest) blocked copied) k
          ≡ get_all copied k ++ passed blocked k (values_under rest k)
    copy_other name value rest blocked copied k later e =
        elim (Bool-cases (withheld blocked name)) [
          | inl hidden ↦
              ap (λ m. get_all m k) (copy_left name value rest blocked copied hidden) ∙ later copied
          | inr shown ↦
              ap (λ m. get_all m k) (copy_kept name value rest blocked copied shown)
              ∙ later (append copied name value)
              ∙ ap (λ vs. vs ++ passed blocked k (values_under rest k))
                  (append_other copied name value k e)
        ]

    passed_nothing : (blocked : List Text) (k : Text) → passed blocked k [] ≡ []
    passed_nothing blocked k = elim (Bool-cases (withheld blocked k)) [
      | inl hidden ↦ passed-withheld blocked k [] hidden
      | inr shown ↦ passed_open blocked k [] shown
    ]

    get_all-copy_entries :
        (entries : List (Text × HeaderValue)) (blocked : List Text) (k : Text)
        → Copies entries blocked k
    unfolding copy_entries
    get_all-copy_entries [] blocked k copied =
        sym
          (ap (◌++◌ (get_all copied k)) (passed_nothing blocked k) ∙ append-nil (get_all copied k))
    get_all-copy_entries ((name, value) ∷ rest) blocked k copied =
        elim (Bool-cases (bytes_eq name k)) [
          | inl e ↦
              copy_same name value rest blocked copied k (get_all-copy_entries rest blocked k) e
              ∙ ap (λ vs. get_all copied k ++ passed blocked k vs)
                  (sym (passed_same name value rest k e))
          | inr e ↦
              copy_other name value rest blocked copied k (get_all-copy_entries rest blocked k) e
              ∙ ap (λ vs. get_all copied k ++ passed blocked k vs)
                  (sym (passed_other name value rest k e))
        ]

    pub get_all-copy_except :
        (m : HeaderMap) (blocked : List Text) (k : Text)
        → get_all (copy_except http m blocked) k ≡ passed blocked k (get_all m k)
    unfolding copy_except
    get_all-copy_except m blocked k =
        get_all-copy_entries (iter m) blocked k new_map
        ∙ ap (λ vs. vs ++ passed blocked k (values_under (iter m) k)) (laws.get_all-new_map k)
        ∙ ap (passed blocked k) (sym (laws.get_all-iter m k))

    -- A response keeps, under every name, all of its values in their order, or none: those that are
    -- withheld are the hop-by-hop headers, the ones that a `Connection` header names, the length
    -- of the content, and what begins with `proxy-`.
    pub get_all-forward_response_headers :
        (incoming : HeaderMap) (k : Text)
        → get_all (forward_response_headers http incoming) k
          ≡ passed
              (blocked_names http incoming ++ codes "content-length" ∷ [])
              k
              (get_all incoming k)
    unfolding forward_response_headers
    get_all-forward_response_headers incoming k = get_all-copy_except incoming _ k
