-- ===== src/CommitPath/Accepts.antt =====
-- That hub/src/commit/validation.rs accepts every safe path.
use xet_server.Prelude.{
  ℕ, ◌<◌, ◌≡◌, ◌≢◌, ◌⊎◌, ◌↔◌, refl, sym, ap, ◌∙◌, subst, arith, true, false, Bool-cases, ◌&&◌, ◌==◌,
  ==_iff, inl, inr, ltb, List, [], ◌∷◌, ◌++◌, length, is_empty, All,
}
use xet_server.Bytes.{eq_bytes, eq_bytes→eq}
use xet_server.Reply.{reply}
use xet_server.CommitPath.{
  is_separator, prepend, split, contains_byte, contains_twice, starts_absolute, dot_dot,
  reject_traversal, first_component, eq_ignore_ascii_case, reserved, is_reserved,
  validate_file_path, max_file_path_length,
}
use xet_server.CommitPath.Safe.{
  IsBefore, IsBehind, IsPlain, HasComponent, IsSafePath, prepend-first, has_dots, later_dots,
  prepend-later, validate_file_path-IsSafePath,
}

-- A component `..` behind a separator.
record Later (path : List ℕ) : Type 0 where
  b : ℕ
  before : List ℕ
  behind : List ℕ
  is_before : IsBefore (b ∷ before)
  is_behind : IsBehind behind
  whole : path ≡ b ∷ (before ++ (dot_dot ++ behind))

split-first :
    (path : List ℕ)
    → (behind : List ℕ) × IsBehind behind × (path ≡ first_component (split path) ++ behind)
unfolding split
split-first [] = ([], tt, refl)
split-first (b ∷ bs) = elim (Bool-cases (is_separator b)) [
  | inl e ↦ rw e (b ∷ bs, e, refl)
  | inr e ↦
      let (behind, v, w) = split-first bs in
      rw e (behind, v, ap (λ p. b ∷ p) w ∙ ap (λ p. p ++ behind) (sym (prepend-first b (split bs))))
]

first_component-IsPlain : (path : List ℕ) → IsPlain (first_component (split path))
unfolding split
first_component-IsPlain [] = tt
first_component-IsPlain (b ∷ bs) = elim (Bool-cases (is_separator b)) [
  | inl e ↦ rw e tt
  | inr e ↦ rw e (subst IsPlain (sym (prepend-first b (split bs))) (e, first_component-IsPlain bs))
]

has_dots-cases :
    (cs : List (List ℕ))
    → has_dots cs ≡ true
    → (first_component cs ≡ dot_dot) ⊎ (later_dots cs ≡ true)
unfolding has_dots later_dots
has_dots-cases [] e = cc
has_dots-cases (c ∷ cs) e = elim (Bool-cases (eq_bytes c dot_dot)) [
  | inl h ↦ inl (eq_bytes→eq c dot_dot h)
  | inr h ↦ inr (rw h at e)
]

later_dots-Later : (path : List ℕ) → later_dots (split path) ≡ true → Later path
unfolding split later_dots has_dots eq_bytes
later_dots-Later [] e = cc
later_dots-Later (b ∷ bs) e = elim (Bool-cases (is_separator b)) [
  | inl s ↦
      let h : has_dots (split bs) ≡ true = rw s at e in
      elim (has_dots-cases (split bs) h) [
        | inl f ↦
            let (behind, v, w) = split-first bs in
            record {
              b = b;
              before = [];
              behind = behind;
              is_before = s;
              is_behind = v;
              whole = ap (λ p. b ∷ p) (w ∙ ap (λ c. c ++ behind) f);
            }
        | inr l ↦ further b bs (later_dots-Later bs l)
      ]
  | inr s ↦
      let p : later_dots (prepend b (split bs)) ≡ true = rw s at e in
      further b bs (later_dots-Later bs (sym (prepend-later b (split bs)) ∙ p))
]
  where
    further : (b : ℕ) (bs : List ℕ) → Later bs → Later (b ∷ bs)
    further b bs r = record {
      b = b;
      before = r.b ∷ r.before;
      behind = r.behind;
      is_before = r.is_before;
      is_behind = r.is_behind;
      whole = ap (λ p. b ∷ p) r.whole;
    }

has_dots-HasComponent : (path : List ℕ) → has_dots (split path) ≡ true → HasComponent path dot_dot
has_dots-HasComponent path e = elim (has_dots-cases (split path) e) [
  | inl f ↦
      let (behind, v, w) = split-first path in
      record {
        before = [];
        behind = behind;
        is_before = tt;
        is_behind = v;
        whole = w ∙ ap (λ c. c ++ behind) f;
      }
  | inr l ↦
      let r = later_dots-Later path l in
      record {
        before = r.b ∷ r.before;
        behind = r.behind;
        is_before = r.is_before;
        is_behind = r.is_behind;
        whole = r.whole;
      }
]

reject_traversal-reply : (cs : List (List ℕ)) → has_dots cs ≡ false → reject_traversal cs ≡ reply tt
unfolding reject_traversal has_dots
reject_traversal-reply [] e = refl
reject_traversal-reply (c ∷ cs) e =
    let h : eq_bytes c dot_dot ≡ false = ground (arith, e) in
    rw h (reject_traversal-reply cs (ground (arith, e)))

contains_byte-false : (x : ℕ) (bs : List ℕ) → All (λ (b : ℕ). b ≢ x) bs → contains_byte x bs ≡ false
unfolding contains_byte
contains_byte-false x [] v = refl
contains_byte-false x (b ∷ bs) (p, v) = elim (Bool-cases (b == x)) [
  | inl e ↦ absurd (p ((==_iff b x).0 e))
  | inr e ↦ rw e (contains_byte-false x bs v)
]

contains_twice-split :
    (x : ℕ) (bs : List ℕ)
    → contains_twice x bs ≡ true
    → (before : List ℕ) × (behind : List ℕ) × (bs ≡ before ++ (x ∷ x ∷ behind))
unfolding contains_twice
contains_twice-split x [] e = cc
contains_twice-split x (b ∷ []) e = cc
contains_twice-split x (b ∷ c ∷ bs) e = elim (Bool-cases ((b == x) && (c == x))) [
  | inl h ↦
      let p = (==_iff b x).0 (ground (arith, h)) in
      let q = (==_iff c x).0 (ground (arith, h)) in ([], bs, cc)
  | inr h ↦
      let (before, behind, w) = contains_twice-split x (c ∷ bs) (rw h at e) in
      (b ∷ before, behind, ap (λ p. b ∷ p) w)
]

is_reserved-false :
    (rs : List (List ℕ)) (c : List ℕ)
    → All (λ r. eq_ignore_ascii_case r c ≡ false) rs
    → is_reserved rs c ≡ false
unfolding is_reserved
is_reserved-false [] c v = refl
is_reserved-false (r ∷ rs) c (p, v) = rw p (is_reserved-false rs c v)

relative-false :
    (path : List ℕ)
    → ((b : ℕ) (bs : List ℕ) → path ≡ b ∷ bs → (b ≢ 47) × (b ≢ 92))
    → starts_absolute path ≡ false
unfolding starts_absolute
relative-false [] v = refl
relative-false (b ∷ bs) v = elim (Bool-cases (is_separator b)) [
  | inl e ↦ let (p, q) = v b bs refl in ground (arith, e, p, q)
  | inr e ↦ e
]

-- `validate_file_path` accepts exactly the safe paths: those that have 1 to 4096 bytes, none of which
-- is 0, do not begin with a separator, have no component `..` between separators or the ends of the
-- path, nowhere the same separator twice in a row, and as their first component no reserved name in
-- any case.
pub validate_file_path_iff :
    (path : List ℕ) → (validate_file_path path ≡ reply tt) ↔ IsSafePath path
unfolding validate_file_path
validate_file_path_iff path = (
  validate_file_path-IsSafePath path,
  λ v.
      let long : ltb max_file_path_length (length path) ≡ false = ground (arith, v.few_bytes) in
      let dots = no_dots path v.no_traversal in
      let (behind, w, q) = split-first path in
      let free =
        v.not_reserved (first_component (split path)) behind (first_component-IsPlain path) w q in
      let slash = never 47 path (v.no_empty 47) refl in
      let backslash = never 92 path (v.no_empty 92) refl in
      rw (
        long,
        not_empty path v.some_bytes,
        contains_byte-false 0 path v.no_null,
        relative-false path v.relative,
        reject_traversal-reply (split path) dots,
        slash,
        backslash,
        is_reserved-false reserved (first_component (split path)) free,
      ),
)
  where
    not_empty : (path : List ℕ) → 0 < length path → is_empty path ≡ false
    not_empty [] e = absurd (omega (arith, e))
    not_empty (b ∷ bs) e = refl

    no_dots : (path : List ℕ) → ¬ HasComponent path dot_dot → has_dots (split path) ≡ false
    no_dots path v = elim (Bool-cases (has_dots (split path))) [
      | inl e ↦ absurd (v (has_dots-HasComponent path e))
      | inr e ↦ e
    ]

    never :
        (x : ℕ) (path : List ℕ)
        → ((before behind : List ℕ) → is_separator x ≡ true → path ≢ before ++ (x ∷ x ∷ behind))
        → is_separator x ≡ true
        → contains_twice x path ≡ false
    never x path v s = elim (Bool-cases (contains_twice x path)) [
      | inl e ↦
          let (before, behind, w) = contains_twice-split x path e in absurd (v before behind s w)
      | inr e ↦ e
    ]
