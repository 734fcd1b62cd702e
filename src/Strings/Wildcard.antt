-- ===== src/Strings/Wildcard.antt =====
-- Lemmas on `string_cmp` of libraries/support/stringlib.cpp.
use Prim.Native.Nat.{◌*◌}
use mathlib.Core.Path.{fun_ext}
use native.Mathlib.Decide.{ℕ_discrete}
use core_cleanup_test.Base.{
  ℕ, zero, suc, ◌+◌, ◌≤◌, ◌<◌, ◌≡◌, ◌≢◌, refl, sym, subst, ap, ◌∙◌, arith, inl, inr, List, [], ◌∷◌,
  Bool, true, false, ◌&&◌, ◌||◌, ◌==◌, if◌then◌else◌, length, Bool-cases, none, some,
}
use core_cleanup_test.Base.Result.{ok}
use core_cleanup_test.Strings.{star, byte_fits, only_stars, tail, cmp_loop, cmp_front, string_cmp}

-- What a star stands for: the rest of the pattern holds at some end of the string.
somewhere : (List ℕ → Bool) → List ℕ → Bool
somewhere f [] = f []
somewhere f (c ∷ s) = f (c ∷ s) || somewhere f s

at_byte : ℕ → (List ℕ → Bool) → List ℕ → Bool
at_byte w f [] = false
at_byte w f (c ∷ s) = byte_fits w c && f s

is_empty : List ℕ → Bool
is_empty [] = true
is_empty (c ∷ s) = false

-- Whether a pattern stands for a string, by recursion on the pattern, with no search order in it.
pub stands_for : List ℕ → List ℕ → Bool
unfolding somewhere at_byte is_empty
stands_for [] s = is_empty s
stands_for (w ∷ wild) s =
    let rest = stands_for wild in if w == star then somewhere rest s else at_byte w rest s

only_stars-stands_for : (wild : List ℕ) → only_stars wild ≡ stands_for wild []
unfolding only_stars stands_for
only_stars-stands_for [] = refl
only_stars-stands_for (w ∷ wild) = ground (arith, only_stars-stands_for wild)

somewhere_end : (s : List ℕ) → somewhere is_empty s ≡ true
unfolding somewhere is_empty
somewhere_end [] = refl
somewhere_end (c ∷ s) = somewhere_end s

-- Two stars are one.
somewhere-somewhere :
    (f : List ℕ → Bool) (s : List ℕ) → somewhere (somewhere f) s ≡ true → somewhere f s ≡ true
unfolding somewhere
somewhere-somewhere f [] h = h
somewhere-somewhere f (c ∷ s) h = ground (arith, h, somewhere-somewhere f s)

-- Where a byte of the pattern holds somewhere, what is behind it holds somewhere after the first byte.
somewhere-at_byte :
    (w : ℕ) (f : List ℕ → Bool) (c : ℕ) (s : List ℕ)
    → somewhere (at_byte w f) (c ∷ s) ≡ true
    → somewhere f s ≡ true
unfolding somewhere at_byte
somewhere-at_byte w f c [] h = ground (arith, h)
somewhere-at_byte w f c (d ∷ s) h = ground (arith, h, somewhere-at_byte w f d s)

-- The second loop at `wild` and `s`, with the way back to `mp` and `cp`; `k` bounds the patterns.
record IsOn (k fuel : ℕ) (wild s mp cp : List ℕ) : Type 0 where
  later : somewhere (stands_for mp) cp ≡ true → somewhere (stands_for wild) s ≡ true
  behind : length s ≤ length cp + 1
  bound : length mp ≤ k
  within : length wild ≤ k
  enough : length cp * (k + 1) + length wild < fuel

-- What the loop is to answer: the rest of the pattern holds here, or the last star takes more.
abbrev answer_of : List ℕ → List ℕ → List ℕ → List ℕ → Bool
answer_of wild s mp cp = stands_for wild s || somewhere (stands_for mp) cp

abbrev Answers : ℕ → ℕ → Type 0
Answers k fuel =
    (wild s mp cp : List ℕ)
    → IsOn k fuel wild s mp cp
    → cmp_loop fuel wild s (some (mp, cp)) ≡ ok (answer_of wild s mp cp)

-- At the end of the string.
answer_end :
    (k fuel : ℕ) (wild mp cp : List ℕ)
    → IsOn k fuel wild [] mp cp
    → ok (only_stars wild) ≡ ok (answer_of wild [] mp cp)
unfolding somewhere
answer_end k fuel wild mp cp i = ground (arith, only_stars-stands_for wild, i.later)

-- Going back makes the last star take one byte more.
answer_back :
    (k fuel : ℕ) (mp cp : List ℕ)
    → Answers k fuel
    → length mp ≤ k
    → length cp * (k + 1) ≤ fuel
    → cmp_loop fuel mp cp (some (mp, tail cp)) ≡ ok (somewhere (stands_for mp) cp)
unfolding cmp_loop somewhere
answer_back k fuel mp [] ih b h = ground (arith, only_stars-stands_for mp)
answer_back k fuel mp (x ∷ cp) ih b h = ih mp (x ∷ cp) mp cp (record {
  later = λ e. ground (arith, e);
  behind = omega arith;
  bound = b;
  within = b;
  enough = omega (arith, b, h);
})

-- The pattern at a star and at another byte.
stands_for-star :
    (w : ℕ) (wild : List ℕ) → w ≡ star → stands_for (w ∷ wild) ≡ somewhere (stands_for wild)
unfolding stands_for
stands_for-star w wild e = fun_ext (λ s. ground (arith, e))

stands_for_byte :
    (w : ℕ) (wild : List ℕ) → w ≢ star → stands_for (w ∷ wild) ≡ at_byte w (stands_for wild)
unfolding stands_for
stands_for_byte w wild n = fun_ext (λ s. ground (arith, n))

star_answer :
    (f : List ℕ → Bool) (b : Bool) (c : ℕ) (s : List ℕ)
    → (b ≡ true → somewhere (somewhere f) (c ∷ s) ≡ true)
    → (f (c ∷ s) || somewhere f s) ≡ (somewhere f (c ∷ s) || b)
unfolding somewhere
star_answer f b c s h = ground (arith, h, somewhere-somewhere f (c ∷ s))

-- A star that is not the last of the pattern.
answer_of-star :
    (k fuel w c : ℕ) (wild s mp cp : List ℕ)
    → Answers k fuel
    → IsOn k (suc fuel) (w ∷ wild) (c ∷ s) mp cp
    → w ≡ star
    → length wild ≤ k
    → cmp_loop fuel wild (c ∷ s) (some (wild, s)) ≡ ok (answer_of (w ∷ wild) (c ∷ s) mp cp)
answer_of-star k fuel w c wild s mp cp ih i e b =
    let p = stands_for-star w wild e in
    let later =
      subst (λ f. somewhere (stands_for mp) cp ≡ true → somewhere f (c ∷ s) ≡ true) p i.later in
    let here = ih wild (c ∷ s) wild s (record {
      later = λ t. unfold somewhere in ground (arith, t);
      behind = omega arith;
      bound = b;
      within = b;
      enough = grind arith;
    }) in
    here
    ∙ ap ok (star_answer (stands_for wild) (somewhere (stands_for mp) cp) c s later)
    ∙ ap (λ f. ok (f (c ∷ s) || somewhere (stands_for mp) cp)) (sym p)

-- A star at the end of the pattern takes the rest.
answer_of_last :
    (w c : ℕ) (s mp cp : List ℕ) → w ≡ star → ok true ≡ ok (answer_of (w ∷ []) (c ∷ s) mp cp)
unfolding is_empty stands_for
answer_of_last w c s mp cp e =
    ap (λ b. ok (b || somewhere (stands_for mp) cp))
      (sym (somewhere_end (c ∷ s)) ∙ ap (λ f. f (c ∷ s)) (sym (stands_for-star w [] e)))

-- A byte that fits.
answer_byte :
    (k fuel w c : ℕ) (wild s mp cp : List ℕ)
    → Answers k fuel
    → IsOn k (suc fuel) (w ∷ wild) (c ∷ s) mp cp
    → w ≢ star
    → byte_fits w c ≡ true
    → cmp_loop fuel wild s (some (mp, cp)) ≡ ok (answer_of (w ∷ wild) (c ∷ s) mp cp)
answer_byte k fuel w c wild s mp cp ih i n h =
    let p = stands_for_byte w wild n in
    let later =
      subst (λ f. somewhere (stands_for mp) cp ≡ true → somewhere f (c ∷ s) ≡ true) p i.later in
    let here = ih wild s mp cp (record {
      later = λ t. somewhere-at_byte w (stands_for wild) c s (later t);
      behind = omega arith;
      bound = i.bound;
      within = omega arith;
      enough = omega arith;
    }) in
    let now : at_byte w (stands_for wild) (c ∷ s) ≡ stands_for wild s =
      unfold at_byte in ground (arith, h) in
    here
    ∙ ap (λ b. ok (b || somewhere (stands_for mp) cp)) (sym now)
    ∙ ap (λ f. ok (f (c ∷ s) || somewhere (stands_for mp) cp)) (sym p)

-- A byte that does not fit, and the end of the pattern before that of the string.
answer_miss :
    (k fuel c : ℕ) (wild s mp cp : List ℕ)
    → Answers k fuel
    → IsOn k (suc fuel) wild (c ∷ s) mp cp
    → stands_for wild (c ∷ s) ≡ false
    → cmp_loop fuel mp cp (some (mp, tail cp)) ≡ ok (answer_of wild (c ∷ s) mp cp)
answer_miss k fuel c wild s mp cp ih i h =
    answer_back k fuel mp cp ih i.bound (omega arith)
    ∙ ap (λ b. ok (b || somewhere (stands_for mp) cp)) (sym h)

-- A star, last or not.
answer_any_star :
    (k fuel w c : ℕ) (wild s mp cp : List ℕ)
    → Answers k fuel
    → IsOn k (suc fuel) (w ∷ wild) (c ∷ s) mp cp
    → w ≡ star
    → cmp_loop (suc fuel) (w ∷ wild) (c ∷ s) (some (mp, cp))
      ≡ ok (answer_of (w ∷ wild) (c ∷ s) mp cp)
unfolding cmp_loop
answer_any_star k fuel w c [] s mp cp ih i e =
    let t : (w == star) ≡ true = ground (arith, e) in rw t (answer_of_last w c s mp cp e)
answer_any_star k fuel w c (v ∷ wild) s mp cp ih i e =
    let t : (w == star) ≡ true = ground (arith, e) in
    rw t (answer_of-star k fuel w c (v ∷ wild) s mp cp ih i e (omega (arith, i.within)))

stands_for_rest : (c : ℕ) (s : List ℕ) → stands_for [] (c ∷ s) ≡ false
unfolding stands_for is_empty
stands_for_rest c s = refl

stands_for_miss :
    (w c : ℕ) (wild s : List ℕ)
    → w ≢ star
    → byte_fits w c ≡ false
    → stands_for (w ∷ wild) (c ∷ s) ≡ false
unfolding stands_for at_byte
stands_for_miss w c wild s n h = ground (arith, n, h)

stands_for_fit :
    (w c : ℕ) (wild s : List ℕ)
    → w ≢ star
    → byte_fits w c ≡ true
    → stands_for (w ∷ wild) (c ∷ s) ≡ stands_for wild s
unfolding stands_for at_byte
stands_for_fit w c wild s n h = ground (arith, n, h)

cmp_loop-answer : (k fuel : ℕ) → Answers k fuel
unfolding cmp_loop
cmp_loop-answer k fuel wild [] mp cp i = answer_end k fuel wild mp cp i
cmp_loop-answer k zero wild (c ∷ s) mp cp i = absurd (omega (arith, i.enough))
cmp_loop-answer k (suc fuel) [] (c ∷ s) mp cp i =
    answer_miss k fuel c [] s mp cp (cmp_loop-answer k fuel) i (stands_for_rest c s)
cmp_loop-answer k (suc fuel) (w ∷ wild) (c ∷ s) mp cp i = elim (ℕ_discrete w star) [
  | yes e ↦ answer_any_star k fuel w c wild s mp cp (cmp_loop-answer k fuel) i e
  | no n ↦
      let t : (w == star) ≡ false = ground (arith, n) in
      elim (Bool-cases (byte_fits w c)) [
        | inl h ↦ rw (t, h) (answer_byte k fuel w c wild s mp cp (cmp_loop-answer k fuel) i n h)
        | inr h ↦
            rw (t, h)
              (answer_miss k fuel c (w ∷ wild) s mp cp (cmp_loop-answer k fuel) i
                (stands_for_miss w c wild s n h))
      ]
]

-- The second loop where it begins, at the first star.
cmp_loop_start :
    (fuel c : ℕ) (wild s : List ℕ)
    → (length s + 1) * (length wild + 3) < fuel
    → cmp_loop fuel (star ∷ wild) (c ∷ s) none ≡ ok (stands_for (star ∷ wild) (c ∷ s))
unfolding cmp_loop stands_for somewhere
cmp_loop_start zero c wild s h = absurd (omega (arith, h))
cmp_loop_start (suc fuel) c [] s h =
    ap ok (sym (somewhere_end (c ∷ s)) ∙ unfold stands_for is_empty in refl)
cmp_loop_start (suc fuel) c (v ∷ wild) s h =
    cmp_loop-answer (length (v ∷ wild)) fuel (v ∷ wild) (c ∷ s) (v ∷ wild) s (record {
      later = λ t. unfold somewhere in ground (arith, t);
      behind = omega arith;
      bound = omega arith;
      within = omega arith;
      enough = omega (arith, h);
    })
    ∙ ap (λ f. ok (f (c ∷ s))) (sym (stands_for-star star (v ∷ wild) refl))

cmp_front-stands_for :
    (fuel : ℕ) (wild s : List ℕ)
    → (length s) * (length wild + 2) < fuel
    → cmp_front fuel wild s ≡ ok (stands_for wild s)
unfolding cmp_front
cmp_front-stands_for fuel wild [] h = ap ok (only_stars-stands_for wild)
cmp_front-stands_for fuel [] (c ∷ s) h = ap ok (sym (stands_for_rest c s))
cmp_front-stands_for fuel (w ∷ wild) (c ∷ s) h = elim (ℕ_discrete w star) [
  | yes e ↦
      let t : (w == star) ≡ true = ground (arith, e) in
      rw (t, e) (cmp_loop_start fuel c wild s (omega (arith, h)))
  | no n ↦
      let t : (w == star) ≡ false = ground (arith, n) in
      elim (Bool-cases (byte_fits w c)) [
        | inl m ↦
            rw (t, m)
              (cmp_front-stands_for fuel wild s (omega (arith, h))
                ∙ ap ok (sym (stands_for_fit w c wild s n m)))
        | inr m ↦ rw (t, m) (ap ok (sym (stands_for_miss w c wild s n m)))
      ]
]

-- `string_cmp` ends on every pattern and string, without a read outside of them, and says whether
-- the pattern stands for the string by the rules of the reference matcher, which tries every way.
pub string_cmp-stands_for :
    (wild string : List ℕ) → string_cmp wild string ≡ ok (stands_for wild string)
unfolding string_cmp
string_cmp-stands_for wild string =
    cmp_front-stands_for ((length string + 1) * (length wild + 2)) wild string (omega arith)
