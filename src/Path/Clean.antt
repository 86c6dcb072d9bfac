-- ===== src/Path/Clean.antt =====
-- What `CleanPath` of minet/src/utils/Parser.cpp gives.
use minet_core.Prelude.{
  ℕ, true, false, [], ◌∷◌, ◌++◌, none, some, ◌≡◌, ◌≢◌, inl, inr, refl, sym, ap, ◌∙◌, arith, ◌==◌,
  Bytes, Bool-cases, append_assoc, append-nil, all, all-concat, Option-cases,
}
use mathlib.Core.Path.{subst}
use minet_core.Path.{with_front, backwards, pop_slashes, forwards, pop_back, clean_path}

-- A slash in front, and none at the end.
pub record IsClean (q : Bytes) : Type 0 where
  pub first : (rest : Bytes) × (q ≡ b'/' ∷ rest)
  pub last : (front : Bytes) × (c : ℕ) × (q ≡ front ++ (c ∷ [])) × (c ≢ b'/')

backwards-append : (xs ys out : Bytes) → backwards (xs ++ ys) out ≡ backwards ys (backwards xs out)
backwards-append [] ys out = refl
backwards-append (x ∷ xs) ys out = backwards-append xs ys (x ∷ out)

backwards-out : (xs out : Bytes) → backwards xs out ≡ backwards xs [] ++ out
backwards-out [] out = refl
backwards-out (x ∷ xs) out =
    backwards-out xs (x ∷ out)
    ∙ sym (append_assoc (backwards xs []) (x ∷ []) out)
    ∙ ap (λ t. t ++ out) (sym (backwards-out xs (x ∷ [])))

backwards-backwards : (xs : Bytes) → backwards (backwards xs []) [] ≡ xs
backwards-backwards [] = refl
backwards-backwards (x ∷ xs) =
    ap (λ t. backwards t []) (backwards-out xs (x ∷ []))
    ∙ backwards-append (backwards xs []) (x ∷ []) []
    ∙ ap (◌∷◌ x) (backwards-backwards xs)

-- What the loop leaves is the string without some slashes at its end.
pop_slashes-some :
    (s t : Bytes)
    → pop_slashes s ≡ some t
    → (c : ℕ) × (cs slashes : Bytes) × (t ≡ c ∷ cs)
      × (c ≢ b'/')
      × (s ≡ slashes ++ t)
      × (all (λ x. x == b'/') slashes ≡ true)
unfolding pop_slashes
pop_slashes-some [] t h = cc
pop_slashes-some (c ∷ cs) t h = elim (Bool-cases (c == b'/')) [
  | inl e ↦
      let (d, ds, sl, a, b, s, l) = pop_slashes-some cs t (rw e at h) in
      (d, ds, c ∷ sl, a, b, ap (◌∷◌ c) s, ground arith)
  | inr e ↦ (c, cs, [], ground arith, ground arith, ground arith, refl)
]

pub pop_slashes-append :
    (slashes t : Bytes)
    → all (λ x. x == b'/') slashes ≡ true
    → pop_slashes (slashes ++ t) ≡ pop_slashes t
unfolding pop_slashes
pop_slashes-append [] t h = refl
pop_slashes-append (c ∷ cs) t h = ground (arith, pop_slashes-append cs t)

with_front-some : (p s : Bytes) → with_front p ≡ some s → (rest : Bytes) × (s ≡ b'/' ∷ rest)
with_front-some [] s h = cc
with_front-some (c ∷ cs) s h = elim (Bool-cases (c == b'/')) [
  | inl e ↦ (cs, ground arith)
  | inr e ↦ (c ∷ cs, ground arith)
]

-- A prefix that is not empty starts as the whole does.
prefix_head :
    (q more rest : Bytes) (x : ℕ) → q ≢ [] → q ++ more ≡ x ∷ rest → (tail : Bytes) × (q ≡ x ∷ tail)
prefix_head [] more rest x n h = absurd (n refl)
prefix_head (y ∷ q) more rest x n h = (q, cc)

snoc-nonempty : (front : Bytes) (c : ℕ) → front ++ (c ∷ []) ≢ []
snoc-nonempty [] c h = cc
snoc-nonempty (x ∷ front) c h = cc

popped-IsClean :
    (s t rest : Bytes)
    → s ≡ b'/' ∷ rest
    → pop_slashes (backwards s []) ≡ some t
    → IsClean (backwards t [])
popped-IsClean s t rest h e =
    let (c, cs, sl, a, n, b, l) = pop_slashes-some (backwards s []) t e in
    let ends : backwards t [] ≡ backwards cs [] ++ (c ∷ []) =
      ap (λ x. backwards x []) a ∙ backwards-out cs (c ∷ []) in
    let whole : backwards t [] ++ backwards sl [] ≡ b'/' ∷ rest =
      sym (backwards-out t (backwards sl []))
      ∙ sym (backwards-append sl t [])
      ∙ ap (λ x. backwards x []) (sym b)
      ∙ backwards-backwards s
      ∙ h in
    record {
      first =
          prefix_head (backwards t []) (backwards sl []) rest b'/'
            (λ z. snoc-nonempty (backwards cs []) c (sym ends ∙ z)) whole;
      last = (backwards cs [], c, ends, n);
    }

-- Where `CleanPath` gives a path, it starts with a slash and does not end with one.
pub clean_path-IsClean : (p q : Bytes) → clean_path p ≡ some q → IsClean q
unfolding clean_path
clean_path-IsClean p q h = elim (Option-cases (with_front p)) [
  | inl e ↦ cc
  | inr (s, e) ↦ elim (Option-cases (pop_slashes (backwards s []))) [
    | inl k ↦ cc
    | inr (t, k) ↦
        let (rest, w) = with_front-some p s e in
        let same : backwards t [] ≡ q = ground (arith, e, k, h) in
        subst IsClean same (popped-IsClean s t rest w k)
  ]
]

-- A clean path stays as it is.
pub IsClean-clean_path : (q : Bytes) → IsClean q → clean_path q ≡ some q
unfolding clean_path pop_slashes
IsClean-clean_path q v =
    let (rest, f) = v.first in
    let (front, c, l, n) = v.last in
    let w : with_front q ≡ some q = ap with_front f ∙ ap some (sym f) in
    let b : backwards q [] ≡ c ∷ backwards front [] =
      ap (λ x. backwards x []) l ∙ backwards-append front (c ∷ []) [] in
    let e : (c == b'/') ≡ false = ground arith in
    let p : pop_slashes (backwards q []) ≡ some (c ∷ backwards front []) =
      ap pop_slashes b ∙ rw e refl in
    ap pop_back w
    ∙ ap forwards p
    ∙ ap (λ x. some (backwards x [])) (sym b)
    ∙ ap some (backwards-backwards q)

-- A slash behind a path makes no difference.
pub clean_path-slash :
    (c : ℕ) (cs : Bytes) → clean_path ((c ∷ cs) ++ (b'/' ∷ [])) ≡ clean_path (c ∷ cs)
unfolding clean_path pop_slashes
clean_path-slash c cs = elim (Bool-cases (c == b'/')) [
  | inl e ↦ rw e (ap (λ x. forwards (pop_slashes x)) (backwards-append cs (b'/' ∷ []) (c ∷ [])))
  | inr e ↦
      rw e (ap (λ x. forwards (pop_slashes x)) (backwards-append cs (b'/' ∷ []) (c ∷ b'/' ∷ [])))
]

all-snoc :
    (xs : Bytes) (x : ℕ)
    → all (λ c. c == b'/') xs ≡ true
    → (x == b'/') ≡ true
    → all (λ c. c == b'/') (xs ++ (x ∷ [])) ≡ true
all-snoc xs x h k = all-concat (λ c. c == b'/') xs x h k

all-backwards :
    (xs : Bytes) → all (λ c. c == b'/') xs ≡ true → all (λ c. c == b'/') (backwards xs []) ≡ true
all-backwards [] h = refl
all-backwards (x ∷ xs) h =
    rw (backwards-out xs (x ∷ []))
      (all-snoc (backwards xs []) x (all-backwards xs (ground arith)) (ground arith))

-- On a path of slashes only, the path of the site's root among them, and on the empty path,
-- `CleanPath` reads the front or the back of an empty string.
pub clean_path-slashes : (p : Bytes) → all (λ c. c == b'/') p ≡ true → clean_path p ≡ none
unfolding clean_path
clean_path-slashes [] h = refl
clean_path-slashes (c ∷ cs) h =
    let e : (c == b'/') ≡ true = ground arith in
    let nothing : pop_slashes [] ≡ none = unfold pop_slashes in refl in
    rw e (
      ap forwards (
        ap pop_slashes (sym (append-nil (backwards (c ∷ cs) [])))
        ∙ pop_slashes-append (backwards (c ∷ cs) []) [] (all-backwards (c ∷ cs) h)
        ∙ nothing))
