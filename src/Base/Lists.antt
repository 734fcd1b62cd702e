-- ===== src/Base/Lists.antt =====
-- Lists measured and indexed by native numbers, under the library's names, and C arrays as lists.
use Prim.Native.Nat.{ℕ, zero, suc, ◌+◌, ◌≤◌, ◌<◌, min}
use mathlib.Core.Path.{◌≡◌, refl, ap, ◌∙◌}
use mathlib.Core.List.{List, [], ◌∷◌, ◌++◌}
use mathlib.Core.Option.{Option, none, some}
use native.Mathlib.Omega.{arith}

module _ {ℓ} {A : Type ℓ} where
  abbrev pub length : List A → ℕ
  length [] = 0
  length (x ∷ xs) = suc (length xs)

  abbrev pub get_elem? : List A → ℕ → Option A
  get_elem? [] i = none
  get_elem? (x ∷ xs) zero = some x
  get_elem? (x ∷ xs) (suc i) = get_elem? xs i

  abbrev pub get_or : List A → ℕ → A → A
  get_or [] i d = d
  get_or (x ∷ xs) zero d = x
  get_or (x ∷ xs) (suc i) d = get_or xs i d

  -- A write out of bounds changes nothing.
  abbrev pub set : List A → ℕ → A → List A
  set [] i v = []
  set (x ∷ xs) zero v = v ∷ xs
  set (x ∷ xs) (suc i) v = x ∷ set xs i v

  abbrev pub take : ℕ → List A → List A
  take zero xs = []
  take (suc n) [] = []
  take (suc n) (x ∷ xs) = x ∷ take n xs

  abbrev pub drop : ℕ → List A → List A
  drop zero xs = xs
  drop (suc n) [] = []
  drop (suc n) (x ∷ xs) = drop n xs

  abbrev pub replicate : ℕ → A → List A
  replicate zero a = []
  replicate (suc n) a = a ∷ replicate n a

  abbrev pub All {κ} : (A → Type κ) → List A → Type κ
  All P [] = Unit {κ}
  All P (x ∷ xs) = P x × All P xs

  pub length-append : (xs ys : List A) → length (xs ++ ys) ≡ length xs + length ys
  length-append [] ys = omega arith
  length-append (x ∷ xs) ys = omega (arith, length-append xs ys)

  pub length-set : (xs : List A) (i : ℕ) (v : A) → length (set xs i v) ≡ length xs
  length-set [] i v = refl
  length-set (x ∷ xs) zero v = refl
  length-set (x ∷ xs) (suc i) v = ap suc (length-set xs i v)

  pub get_elem?-set :
      (xs : List A) (i : ℕ) (v w : A) → get_elem? xs i ≡ some w → get_elem? (set xs i v) i ≡ some v
  get_elem?-set [] i v w e = absurd (ground (arith, e))
  get_elem?-set (x ∷ xs) zero v w e = refl
  get_elem?-set (x ∷ xs) (suc i) v w e = get_elem?-set xs i v w e

  pub set-set : (xs : List A) (i : ℕ) (v w : A) → set (set xs i v) i w ≡ set xs i w
  set-set [] i v w = refl
  set-set (x ∷ xs) zero v w = refl
  set-set (x ∷ xs) (suc i) v w = ap (λ l. x ∷ l) (set-set xs i v w)

  pub length-take : (n : ℕ) (xs : List A) → length (take n xs) ≡ min n (length xs)
  length-take zero xs = omega arith
  length-take (suc n) [] = omega arith
  length-take (suc n) (x ∷ xs) = omega (arith, length-take n xs)

  pub length-replicate : (n : ℕ) (a : A) → length (replicate n a) ≡ n
  length-replicate zero a = refl
  length-replicate (suc n) a = ap suc (length-replicate n a)

  pub take-append : (xs ys : List A) → take (length xs) (xs ++ ys) ≡ xs
  take-append [] ys = refl
  take-append (x ∷ xs) ys = ap (λ l. x ∷ l) (take-append xs ys)

  pub drop-append : (xs ys : List A) → drop (length xs) (xs ++ ys) ≡ ys
  drop-append [] ys = refl
  drop-append (x ∷ xs) ys = drop-append xs ys

module _ {ℓ} {A : Type ℓ} where
  -- The bytes `xs` laid over the array from index `i` on, as `memcpy` and a loop of writes do.
  abbrev pub overwrite : List A → ℕ → List A → List A
  overwrite buf i [] = buf
  overwrite buf i (x ∷ xs) = overwrite (set buf i x) (i + 1) xs

  pub length-overwrite :
      (buf : List A) (i : ℕ) (xs : List A) → length (overwrite buf i xs) ≡ length buf
  length-overwrite buf i [] = refl
  length-overwrite buf i (x ∷ xs) = length-overwrite (set buf i x) (i + 1) xs ∙ length-set buf i x

  pub overwrite-append :
      (buf : List A) (i : ℕ) (xs ys : List A)
      → overwrite buf i (xs ++ ys) ≡ overwrite (overwrite buf i xs) (i + length xs) ys
  overwrite-append buf i [] ys = let e : i + 0 ≡ i = omega arith in simp e
  overwrite-append buf i (x ∷ xs) ys =
      let e : i + suc (length xs) ≡ i + 1 + length xs = omega arith in
      rw e (overwrite-append (set buf i x) (i + 1) xs ys)

  overwrite-cons :
      (b : A) (buf : List A) (i : ℕ) (xs : List A)
      → overwrite (b ∷ buf) (suc i) xs ≡ b ∷ overwrite buf i xs
  overwrite-cons b buf i [] = refl
  overwrite-cons b buf i (x ∷ xs) =
      let e : suc i + 1 ≡ suc (i + 1) = omega arith in
      rw e (overwrite-cons b (set buf i x) (i + 1) xs)

  overwrite_front :
      (old new more : List A)
      → length old ≡ length new
      → overwrite (old ++ more) 0 new ≡ new ++ more
  overwrite_front [] [] more e = refl
  overwrite_front [] (z ∷ new) more e = absurd (omega arith)
  overwrite_front (y ∷ old) [] more e = absurd (omega arith)
  overwrite_front (y ∷ old) (z ∷ new) more e =
      overwrite-cons z (old ++ more) 0 new
      ∙ ap (λ l. z ∷ l) (overwrite_front old new more (omega arith))

  -- An overwrite replaces the part that it covers.
  pub overwrite_middle :
      (front old new more : List A) (i : ℕ)
      → i ≡ length front
      → length old ≡ length new
      → overwrite (front ++ (old ++ more)) i new ≡ front ++ (new ++ more)
  overwrite_middle [] old new more i p e = rw p (overwrite_front old new more e)
  overwrite_middle (x ∷ front) old new more i p e = rw p (
      overwrite-cons x (front ++ (old ++ more)) (length front) new
      ∙ ap (λ l. x ∷ l) (overwrite_middle front old new more (length front) refl e))

  -- What an overwrite that fits leaves: the bytes before, the new bytes, the bytes behind.
  pub overwrite-eq_parts :
      (buf : List A) (i : ℕ) (xs : List A)
      → i + length xs ≤ length buf
      → overwrite buf i xs ≡ take i buf ++ (xs ++ drop (i + length xs) buf)
  overwrite-eq_parts buf zero [] h = refl
  overwrite-eq_parts [] zero (x ∷ xs) h = absurd (omega arith)
  overwrite-eq_parts (b ∷ buf) zero (x ∷ xs) h =
      let e : 0 + 1 ≡ suc 0 = omega arith in
      let e' : 0 + suc (length xs) ≡ suc (0 + length xs) = omega arith in
      rw (e, e')
        (overwrite-cons x buf 0 xs ∙ ap (λ l. x ∷ l) (overwrite-eq_parts buf 0 xs (omega arith)))
  overwrite-eq_parts [] (suc i) xs h = absurd (omega arith)
  overwrite-eq_parts (b ∷ buf) (suc i) xs h =
      let e : suc i + length xs ≡ suc (i + length xs) = omega arith in
      rw e (overwrite-cons b buf i xs ∙ ap (λ l. b ∷ l) (overwrite-eq_parts buf i xs (omega arith)))

  -- A list with two elements at an index, taken apart there.
  pub split_two :
      (n : ℕ) (xs : List A)
      → n + 2 ≤ length xs
      → (x : A) × (y : A) × (more : List A) × (xs ≡ take n xs ++ (x ∷ y ∷ more))
        × (length (take n xs) ≡ n)
  split_two n [] h = absurd (omega arith)
  split_two zero (x ∷ []) h = absurd (omega arith)
  split_two zero (x ∷ y ∷ more) h = (x, y, more, refl, refl)
  split_two (suc n) (z ∷ xs) h =
      let (x, y, more, e, l) = split_two n xs (omega arith) in
      (x, y, more, ap (λ r. z ∷ r) e, ap suc l)

  pub drop_two :
      (n : ℕ) (xs : List A)
      → n + 2 ≤ length xs
      → (x : A) × (y : A) × (drop n xs ≡ x ∷ y ∷ drop (n + 2) xs)
  drop_two n [] h = absurd (omega arith)
  drop_two zero (x ∷ []) h = absurd (omega arith)
  drop_two zero (x ∷ y ∷ more) h = (x, y, refl)
  drop_two (suc n) (z ∷ xs) h =
      let (x, y, e) = drop_two n xs (omega arith) in
      let m : suc n + 2 ≡ suc (n + 2) = omega arith in (x, y, rw m e)

  pub All-take {κ} : (P : A → Type κ) (n : ℕ) (xs : List A) → All P xs → All P (take n xs)
  All-take P zero xs h = tt
  All-take P (suc n) [] h = tt
  All-take P (suc n) (x ∷ xs) h = (h.0, All-take P n xs h.1)

  pub take-append_le : (n : ℕ) (xs ys : List A) → n ≤ length xs → take n (xs ++ ys) ≡ take n xs
  take-append_le zero xs ys h = refl
  take-append_le (suc n) [] ys h = absurd (omega arith)
  take-append_le (suc n) (x ∷ xs) ys h = ap (λ l. x ∷ l) (take-append_le n xs ys (omega arith))

  pub take_all : (n : ℕ) (xs : List A) → length xs ≤ n → take n xs ≡ xs
  take_all zero [] h = refl
  take_all zero (x ∷ xs) h = absurd (omega (arith, h))
  take_all (suc n) [] h = refl
  take_all (suc n) (x ∷ xs) h = ap (λ l. x ∷ l) (take_all n xs (omega (arith, h)))

  pub get_or-append :
      (xs ys : List A) (i : ℕ) (d : A) → i < length xs → get_or (xs ++ ys) i d ≡ get_or xs i d
  get_or-append [] ys i d h = absurd (omega (arith, h))
  get_or-append (x ∷ xs) ys zero d h = refl
  get_or-append (x ∷ xs) ys (suc i) d h = get_or-append xs ys i d (omega (arith, h))

  pub get_or-take : (n i : ℕ) (xs : List A) (d : A) → i < n → get_or (take n xs) i d ≡ get_or xs i d
  get_or-take zero i xs d h = absurd (omega (arith, h))
  get_or-take (suc n) i [] d h = refl
  get_or-take (suc n) zero (x ∷ xs) d h = refl
  get_or-take (suc n) (suc i) (x ∷ xs) d h = get_or-take n i xs d (omega (arith, h))

  pub take-drop : (n : ℕ) (xs : List A) → xs ≡ take n xs ++ drop n xs
  take-drop zero xs = refl
  take-drop (suc n) [] = refl
  take-drop (suc n) (x ∷ xs) = ap (λ l. x ∷ l) (take-drop n xs)
