-- ===== src/Routes/Redirects.antt =====
-- members/nullnet-proxy/src/main.rs: the `Location` of a redirect. The query and the `Host` header
-- of the request are arguments, the header empty where there is none.
use mathlib.Core.List.{append_assoc}
use nullnet.Prelude.{
  Bool, Bool-cases, List, Option, Option-cases, Text, [], ap, arith, codes, eqb, false,
  if◌then◌else◌, inl, inr, none, not, refl, some, sym, true, ℕ, ◌&&◌, ◌++◌, ◌||◌, ◌∙◌, ◌∷◌, ◌≡◌,
  text_eq,
}

abbrev pub question : ℕ
question = 63

-- `str::split_once('?')`.
unfoldable pub split_once : Text → Option (Text × Text)
split_once [] = none
split_once (c ∷ s) =
    let rest = split_once s in if eqb c question then some ([], s) else prepend c rest
  where
    prepend : ℕ → Option (Text × Text) → Option (Text × Text)
    prepend c none = none
    prepend c (some (b, q)) = some (c ∷ b, q)

abbrev starts_with : (prefix s : Text) → Bool
starts_with [] s = true
starts_with (c ∷ prefix) [] = false
starts_with (c ∷ prefix) (d ∷ s) = eqb c d && starts_with prefix s

-- `str::contains`.
abbrev pub contains : (s part : Text) → Bool
contains [] part = starts_with part []
contains (c ∷ s) part = starts_with part (c ∷ s) || contains s part

abbrev pub base_of : Text → Option (Text × Text) → Text
base_of to none = to
base_of to (some (base, query)) = base

abbrev pub own_query : Option (Text × Text) → List Text
own_query none = []
own_query (some (base, query)) = query ∷ []

abbrev pub request_query : Bool → Option Text → List Text
request_query true (some query) = query ∷ []
request_query _ _ = []

-- The slice's `join("&")`, behind a `?` where there is a part.
abbrev pub joined : List Text → Text
joined [] = []
joined (q ∷ []) = q
joined (q ∷ r ∷ qs) = q ++ (38 ∷ joined (r ∷ qs))

abbrev pub with_query : List Text → Text
with_query [] = []
with_query (q ∷ qs) = question ∷ joined (q ∷ qs)

abbrev pub target_of : Text → Text → Bool → Bool → Option Text → Text
target_of to matched_suffix preserve_path preserve_query query =
    let split = split_once to in
    (base_of to split ++ (if preserve_path then matched_suffix else []))
    ++ with_query (own_query split ++ request_query preserve_query query)

abbrev pub scheme_end : Text
scheme_end = codes "://"

unfoldable pub resolve_redirect_target :
    (to matched_suffix : Text)
    → (preserve_path preserve_query : Bool) → (query : Option Text) → (host : Text) → (tls : Bool)
    → Text
resolve_redirect_target to matched_suffix preserve_path preserve_query query host tls =
    let target = target_of to matched_suffix preserve_path preserve_query query in
    if contains target scheme_end
    then target
    else (if tls then codes "https" else codes "http") ++ (scheme_end ++ (host ++ target))

contains-suffix : (a s part : Text) → contains s part ≡ true → contains (a ++ s) part ≡ true
contains-suffix [] s part h = h
contains-suffix (c ∷ a) s part h = ground (arith, contains-suffix a s part h)

Ends : Text → Text → Type 0
Ends s q = (p : Text) × (s ≡ p ++ q)

Ends-append : (a s q : Text) → Ends s q → Ends (a ++ s) q
unfolding Ends
Ends-append a s q (p, e) = (a ++ p, ap (λ t. a ++ t) e ∙ sym (append_assoc a p q))

joined-Ends : (xs : List Text) (q : Text) → Ends (joined (xs ++ (q ∷ []))) q
unfolding Ends
joined-Ends [] q = ([], refl)
joined-Ends (x ∷ []) q = (x ++ (38 ∷ []), sym (append_assoc x (38 ∷ []) q))
joined-Ends (x ∷ y ∷ xs) q =
    let (p, e) = joined-Ends (y ∷ xs) q in
    (x ++ (38 ∷ p), ap (λ t. x ++ (38 ∷ t)) e ∙ sym (append_assoc x (38 ∷ p) q))

with_query-Ends : (xs : List Text) (q : Text) → Ends (with_query (xs ++ (q ∷ []))) q
unfolding Ends
with_query-Ends [] q = (question ∷ [], refl)
with_query-Ends (x ∷ xs) q =
    let (p, e) = joined-Ends (x ∷ xs) q in (question ∷ p, ap (λ t. question ∷ t) e)

-- `Location` without a scheme and a host.
abbrev pub is_bare : Text → Bool
is_bare s = starts_with (47 ∷ []) s

split_path : (rest : Text) → (t : Text) × (base_of (47 ∷ rest) (split_once (47 ∷ rest)) ≡ 47 ∷ t)
unfolding split_once
split_path rest = elim (Option-cases (split_once rest)) [
  | inl whole ↦ (rest, rw whole refl)
  | inr ((b, q), cut) ↦ (b, rw cut refl)
]

bare-tail : (s t : Text) → s ≡ 47 ∷ t → is_bare s ≡ true
bare-tail s t e = rw e refl

bool_clash : (b : Bool) → b ≡ true → b ≡ false → ⊥
bool_clash b x y = ground arith

absent_part : (s a q part : Text) → s ≡ a ++ q → contains s part ≡ false → contains q part ≡ false
absent_part s a q part e absent = elim (Bool-cases (contains q part)) [
  | inl there ↦ absurd (
      bool_clash (contains s part) (ap (λ u. contains u part) e ∙ contains-suffix a q part there)
        absent)
  | inr gone ↦ gone
]

scheme_bare :
    (tls : Bool) (s : Text) → is_bare ((if tls then codes "https" else codes "http") ++ s) ≡ false
scheme_bare true s = refl
scheme_bare false s = refl

-- A redirect to a bare path that keeps the request's query ends with that query. It gets the scheme
-- and the host of the request exactly if `://` occurs nowhere in its target, which is the path with
-- the suffix and the queries appended: a query of the request with `://` in it leaves the `Location`
-- a bare path.
pub redirect_query :
    (rest suffix : Text) (path : Bool) (query host : Text) (tls : Bool)
    → let to : Text = 47 ∷ rest in
      let location = resolve_redirect_target to suffix path true (some query) host tls in
      let target = target_of to suffix path true (some query) in
      ((p : Text) × (location ≡ p ++ query))
      × (location ≡ (
          if is_bare location
          then target
          else (if tls then codes "https" else codes "http") ++ (scheme_end ++ (host ++ target))))
      × (is_bare location ≡ contains target scheme_end)
      × ((contains query scheme_end && not (is_bare location)) ≡ false)
unfolding resolve_redirect_target Ends
redirect_query rest suffix path query host tls =
    let to : Text = 47 ∷ rest in
    let split = split_once to in
    let front = base_of to split ++ (if path then suffix else []) in
    let scheme = if tls then codes "https" else codes "http" in
    let target = target_of to suffix path true (some query) in
    let kept : Ends target query =
      Ends-append front _ query (with_query-Ends (own_query split) query) in
    let (t, starts) = split_path rest in
    let tail = if path then suffix else [] in
    let queries = with_query (own_query split ++ (query ∷ [])) in
    let bare : is_bare target ≡ true =
      bare-tail target ((t ++ tail) ++ queries) (ap (λ b. (b ++ tail) ++ queries) starts) in
    let (p, e) = kept in
    elim (Bool-cases (contains target scheme_end)) [
      | inl named ↦ rw (named, bare) (kept, refl, refl, ground arith)
      | inr unnamed ↦
          let hidden : contains query scheme_end ≡ false =
            absent_part target p query scheme_end e unnamed in
          rw (unnamed, scheme_bare tls (scheme_end ++ (host ++ target)), hidden)
            (
              Ends-append scheme _ query
                  (Ends-append scheme_end _ query (Ends-append host target query kept)),
              refl,
              refl,
              refl,
            )
    ]
