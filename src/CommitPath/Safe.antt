-- ===== src/CommitPath/Safe.antt =====
-- The paths that hub/src/commit/validation.rs accepts.
use xet_server.Prelude.{
  ℕ, ◌≤◌, ◌<◌, ◌≡◌, ◌≢◌, refl, sym, ap, ◌∙◌, subst, arith, Bool, true, false, Bool-cases, ◌||◌,
  ◌==◌, ==_iff, inl, inr, ltb, List, [], ◌∷◌, ◌++◌, length, is_empty, All,
}
use xet_server.Bytes.{eq_bytes}
use xet_server.Reply.{reply, fail_if}
use xet_server.Reply.Laws.{bind-eq-reply, fail_if-reply}
use xet_server.CommitPath.{
  is_separator, prepend, split, contains_byte, contains_twice, starts_absolute, dot_dot,
  reject_traversal, first_component, eq_ignore_ascii_case, reserved, is_reserved,
  validate_file_path, max_file_path_length,
}

pub prepend-first :
    (b : ℕ) (cs : List (List ℕ)) → first_component (prepend b cs) ≡ b ∷ first_component cs
prepend-first b [] = refl
prepend-first b (c ∷ cs) = refl

-- Nothing, or bytes that end with a separator.
abbrev pub IsBefore : List ℕ → Type 0
IsBefore [] = Unit {0}
IsBefore (b ∷ []) = is_separator b ≡ true
IsBefore (b ∷ c ∷ bs) = IsBefore (c ∷ bs)

-- Nothing, or bytes that begin with a separator.
abbrev pub IsBehind : List ℕ → Type 0
IsBehind [] = Unit {0}
IsBehind (b ∷ bs) = is_separator b ≡ true

-- Bytes with no separator.
abbrev pub IsPlain : List ℕ → Type 0
IsPlain bs = All (λ (b : ℕ). is_separator b ≡ false) bs

-- A component is what stands between separators or the ends of the path.
pub record HasComponent (path component : List ℕ) : Type 0 where
  pub before : List ℕ
  pub behind : List ℕ
  pub is_before : IsBefore before
  pub is_behind : IsBehind behind
  pub whole : path ≡ before ++ (component ++ behind)

pub record IsSafePath (path : List ℕ) : Type 0 where
  pub some_bytes : 0 < length path
  pub few_bytes : length path ≤ 4096
  pub no_null : All (λ (b : ℕ). b ≢ 0) path
  pub relative : (b : ℕ) (bs : List ℕ) → path ≡ b ∷ bs → (b ≢ 47) × (b ≢ 92)
  pub no_traversal : ¬ HasComponent path dot_dot
  pub no_empty :
      (x : ℕ) (before behind : List ℕ) → is_separator x ≡ true → path ≢ before ++ (x ∷ x ∷ behind)
  pub not_reserved :
      (first behind : List ℕ)
      → IsPlain first
      → IsBehind behind
      → path ≡ first ++ behind
      → All (λ r. eq_ignore_ascii_case r first ≡ false) reserved

first_component-split :
    (first behind : List ℕ)
    → IsPlain first
    → IsBehind behind
    → first_component (split (first ++ behind)) ≡ first
unfolding split
first_component-split [] [] v w = refl
first_component-split [] (b ∷ behind) v w = rw w refl
first_component-split (b ∷ first) behind (p, v) w = rw p (
    prepend-first b (split (first ++ behind))
    ∙ ap (λ c. b ∷ c) (first_component-split first behind v w))

-- Whether a component is `..`, and whether one behind the first is.
unfoldable pub has_dots : List (List ℕ) → Bool
has_dots [] = false
has_dots (c ∷ cs) = eq_bytes c dot_dot || has_dots cs

unfoldable pub later_dots : List (List ℕ) → Bool
later_dots [] = false
later_dots (c ∷ cs) = has_dots cs

pub prepend-later : (b : ℕ) (cs : List (List ℕ)) → later_dots (prepend b cs) ≡ later_dots cs
unfolding later_dots has_dots
prepend-later b [] = refl
prepend-later b (c ∷ cs) = refl

later-has : (cs : List (List ℕ)) → later_dots cs ≡ true → has_dots cs ≡ true
unfolding later_dots has_dots
later-has [] e = cc
later-has (c ∷ cs) e = ground (arith, e)

split-dot_dot : (behind : List ℕ) → IsBehind behind → has_dots (split (dot_dot ++ behind)) ≡ true
unfolding split has_dots eq_bytes
split-dot_dot [] v = refl
split-dot_dot (b ∷ bs) v = rw v refl

split-later :
    (b : ℕ) (before behind : List ℕ)
    → IsBefore (b ∷ before)
    → IsBehind behind
    → later_dots (split ((b ∷ before) ++ (dot_dot ++ behind))) ≡ true
unfolding split later_dots
split-later b [] behind v w = rw v (split-dot_dot behind w)
split-later b (c ∷ before) behind v w =
    let later = split-later c before behind v w in
    elim (Bool-cases (is_separator b)) [
      | inl e ↦ rw e (later-has _ later)
      | inr e ↦ rw e (prepend-later b _ ∙ later)
    ]

HasComponent-has_dots : (path : List ℕ) → HasComponent path dot_dot → has_dots (split path) ≡ true
HasComponent-has_dots path v =
    ap (λ p. has_dots (split p)) v.whole ∙ at v.before v.behind v.is_before v.is_behind
  where
    at :
        (before behind : List ℕ)
        → IsBefore before
        → IsBehind behind
        → has_dots (split (before ++ (dot_dot ++ behind))) ≡ true
    at [] behind v w = split-dot_dot behind w
    at (b ∷ before) behind v w = later-has _ (split-later b before behind v w)

reject_traversal-has_dots :
    (cs : List (List ℕ)) {u : Unit {0}} → reject_traversal cs ≡ reply u → has_dots cs ≡ false
unfolding reject_traversal has_dots
reject_traversal-has_dots [] e = refl
reject_traversal-has_dots (c ∷ cs) e =
    let (u, e₁, r₁) = bind-eq-reply (fail_if (eq_bytes c dot_dot) _) _ e in
    let head = fail_if-reply (eq_bytes c dot_dot) _ e₁ in
    let tail = reject_traversal-has_dots cs r₁ in ground (arith, head, tail)

contains_byte-All : (x : ℕ) (bs : List ℕ) → contains_byte x bs ≡ false → All (λ (b : ℕ). b ≢ x) bs
unfolding contains_byte
contains_byte-All x [] e = tt
contains_byte-All x (b ∷ bs) e =
    (λ q. ground (arith, e, q), contains_byte-All x bs (ground (arith, e)))

contains_twice-append :
    (x : ℕ) (before behind : List ℕ) → contains_twice x (before ++ (x ∷ x ∷ behind)) ≡ true
unfolding contains_twice
contains_twice-append x [] behind = ground arith
contains_twice-append x (b ∷ []) behind =
    let w = contains_twice-append x [] behind in ground (arith, w)
contains_twice-append x (b ∷ c ∷ before) behind =
    let w = contains_twice-append x (c ∷ before) behind in ground (arith, w)

is_reserved-All :
    (rs : List (List ℕ)) (c : List ℕ)
    → is_reserved rs c ≡ false
    → All (λ r. eq_ignore_ascii_case r c ≡ false) rs
unfolding is_reserved
is_reserved-All [] c e = tt
is_reserved-All (r ∷ rs) c e = (ground (arith, e), is_reserved-All rs c (ground (arith, e)))

not_absolute :
    (path : List ℕ)
    → starts_absolute path ≡ false
    → (b : ℕ) (bs : List ℕ) → path ≡ b ∷ bs
    → (b ≢ 47) × (b ≢ 92)
unfolding starts_absolute
not_absolute path e b bs q =
    let s : is_separator b ≡ false = ap starts_absolute (sym q) ∙ e in
    (λ p. ground (arith, s, p), λ p. ground (arith, s, p))

-- A path that `validate_file_path` accepts has 1 to 4096 bytes, none of which is 0, does not begin
-- with a separator, has no component `..` between separators or the ends of the path, nowhere the
-- same separator twice in a row, and as its first component no reserved name in any case.
pub validate_file_path-IsSafePath :
    (path : List ℕ) → validate_file_path path ≡ reply tt → IsSafePath path
unfolding validate_file_path
validate_file_path-IsSafePath path e =
    let (u₁, e₁, r₁) = bind-eq-reply (fail_if (ltb max_file_path_length (length path)) _) _ e in
    let (u₂, e₂, r₂) = bind-eq-reply (fail_if (is_empty path) _) _ r₁ in
    let (u₃, e₃, r₃) = bind-eq-reply (fail_if (contains_byte 0 path) _) _ r₂ in
    let (u₄, e₄, r₄) = bind-eq-reply (fail_if (starts_absolute path) _) _ r₃ in
    let (u₅, e₅, r₅) = bind-eq-reply (reject_traversal (split path)) _ r₄ in
    let (u₆, e₆, r₆) =
      bind-eq-reply (fail_if (contains_twice 47 path || contains_twice 92 path) _) _ r₅ in
    let (u₇, e₇, r₇) =
      bind-eq-reply (fail_if (is_reserved reserved (first_component (split path))) _) _ r₆ in
    let long = fail_if-reply (ltb max_file_path_length (length path)) _ e₁ in
    let twice = fail_if-reply (contains_twice 47 path || contains_twice 92 path) _ e₆ in
    record {
      some_bytes = not_empty path (fail_if-reply (is_empty path) _ e₂);
      few_bytes = ground (arith, long);
      no_null = contains_byte-All 0 path (fail_if-reply (contains_byte 0 path) _ e₃);
      relative = not_absolute path (fail_if-reply (starts_absolute path) _ e₄);
      no_traversal = λ c.
          let a = HasComponent-has_dots path c in
          let b = reject_traversal-has_dots (split path) e₅ in
          let w : true ≡ false = sym a ∙ b in cc;
      no_empty = λ x before behind s q.
          let t = ap (contains_twice x) q ∙ contains_twice-append x before behind in
          never x path s t twice;
      not_reserved = λ first behind p w q.
          let same =
            ap (λ x. first_component (split x)) q ∙ first_component-split first behind p w in
          subst (λ c. All (λ r. eq_ignore_ascii_case r c ≡ false) reserved) same
            (is_reserved-All reserved (first_component (split path))
              (fail_if-reply (is_reserved reserved (first_component (split path))) _ e₇));
    }
  where
    not_empty : (path : List ℕ) → is_empty path ≡ false → 0 < length path
    not_empty [] e = cc
    not_empty (b ∷ bs) e = omega arith

    never :
        (x : ℕ) (path : List ℕ)
        → is_separator x ≡ true
        → contains_twice x path ≡ true
        → (contains_twice 47 path || contains_twice 92 path) ≡ false
        → ⊥
    never x path s t f = elim (Bool-cases (x == 47)) [
      | inl h ↦
          let q = (==_iff x 47).0 h in
          let t' = ap (λ y. contains_twice y path) (sym q) ∙ t in ground (arith, t', f)
      | inr h ↦
          let q = (==_iff x 92).0 (ground (arith, s, h)) in
          let t' = ap (λ y. contains_twice y path) (sym q) ∙ t in ground (arith, t', f)
    ]
