-- ===== src/FileAgent/Receive/Placing.antt =====
-- Where the PACKET_DATA case of `recv_loop` puts a chunk: coverage and byte counts.
use core_cleanup_test.Base.{
  ℕ, ◌+◌, ◌-◌, ◌^◌, ◌<◌, ◌≤◌, ◌≡◌, refl, List, [], ◌∷◌, true, false, ◌&&◌, ◌||◌, if◌then◌else◌,
  arith, All, ◌⊎◌, inl, inr,
}
use native.Mathlib.Decide.{ℕ_discrete}
use core_cleanup_test.Transfer.{FileProgress}
use core_cleanup_test.FileAgent.Chunks.Coverage.{in_chunk, covered, IsChunk, Ordered, sizes}
use core_cleanup_test.FileAgent.Receive.{Placed, place}

-- A chunk of `count` bytes, as a packet can carry it.
pub record Carries (tp : FileProgress) (count : ℕ) : Type 0 where
  pub chunk : IsChunk tp
  pub counted : count ≡ tp.chunk_end - tp.chunk_start + 1
  pub small : count < 2 ^ 16

-- What the placing of a chunk in a list guarantees.
pub record IsPlaced (tp : FileProgress) (count : ℕ) (cs : List FileProgress) (p : Placed)
    : Type 0 where
  pub chunks : All IsChunk p.info
  pub kept : Carries p.chunk p.byte_count
  pub inside : (tp.chunk_start ≤ p.chunk.chunk_start) × (p.chunk.chunk_end ≤ tp.chunk_end)
  pub same : (x : ℕ) → covered p.info x ≡ (covered cs x || (p.updated && in_chunk p.chunk x))
  pub counted : sizes p.info ≡ sizes cs + (if p.updated then p.byte_count else 0)

pub place-IsPlaced :
    (tp : FileProgress) (count : ℕ) (cs : List FileProgress)
    → Carries tp count
    → All IsChunk cs
    → IsPlaced tp count cs (place tp count cs)
unfolding place
place-IsPlaced tp count [] h hs = record {
  chunks = (h.chunk, tt);
  kept = h;
  inside = omega arith;
  same = λ x. ground arith;
  counted = omega (arith, h.counted);
}
place-IsPlaced tp count (c ∷ cs) h hs =
    let ih = place-IsPlaced tp count cs h hs.1 in
    record {
      chunks = ground (arith, ih.chunks, h.chunk, hs.0);
      kept = record {
        chunk = ground (arith, ih.kept.chunk, h.chunk, hs.0);
        counted = ground (arith, ih.kept.counted, h.chunk, h.counted, h.small, hs.0);
        small = ground (arith, ih.kept.small, h.chunk, h.counted, h.small, hs.0);
      };
      inside = ground (arith, ih.inside, h.chunk, hs.0);
      same = λ x. ground (arith, ih.same x, h.chunk, hs.0);
      counted = ground (arith, ih.counted, h.counted, h.chunk, hs.0, h.small);
    }

-- A chunk that shares no byte with the list, such as one that answers a request for a hole, is
-- stored as it came, and the list stays in order.
pub record IsStored (lo : ℕ) (tp : FileProgress) (count : ℕ) (p : Placed) : Type 0 where
  pub ordered : Ordered lo p.info
  pub whole : p.chunk ≡ tp
  pub counted : p.byte_count ≡ count
  pub updated : p.updated ≡ true

-- A chunk that shares no byte with a list that begins behind its first byte ends before the list.
Ordered-behind :
    (lo : ℕ) (tp : FileProgress) (cs : List FileProgress)
    → Ordered lo cs
    → tp.chunk_start ≤ lo
    → ((x : ℕ) → in_chunk tp x ≡ true → covered cs x ≡ false)
    → Ordered (tp.chunk_end + 1) cs
Ordered-behind lo tp [] s h apart = tt
Ordered-behind lo tp (c ∷ cs) s h apart =
    let o = s.1.ordered in let l = s.0 in (ground (arith, apart c.chunk_start), s.1, s.2)

before_or_behind :
    (tp c : FileProgress) (cs : List FileProgress)
    → tp.chunk_start ≤ tp.chunk_end
    → c.chunk_start ≤ c.chunk_end
    → ((x : ℕ) → in_chunk tp x ≡ true → covered (c ∷ cs) x ≡ false)
    → (tp.chunk_end < c.chunk_start) ⊎ (c.chunk_end < tp.chunk_start)
before_or_behind tp c cs o p apart = ground (arith, apart tp.chunk_start, apart c.chunk_start)

-- The three places that such a chunk can have beside the first chunk of the list.
module _ (lo : ℕ) (tp : FileProgress) (count : ℕ) (c : FileProgress) (cs : List FileProgress)
    (h : Carries tp count) (s : Ordered lo (c ∷ cs)) (l : lo ≤ tp.chunk_start) where
  place_before : tp.chunk_end < c.chunk_start → IsStored lo tp count (place tp count (c ∷ cs))
  unfolding place
  place_before b =
      let w = h.chunk.small in
      let o = h.chunk.ordered in
      let e = h.counted in
      let q = h.small in
      let p = s.1.ordered in
      let z = s.1.small in
      record {
        ordered = ground (arith, h.chunk, s.0, s.1, s.2);
        whole = ground arith;
        counted = ground arith;
        updated = ground arith;
      }

  place_touching :
      c.chunk_end + 1 ≡ tp.chunk_start
      → Ordered (tp.chunk_end + 1) cs
      → IsStored lo tp count (place tp count (c ∷ cs))
  unfolding place
  place_touching b rest =
      let w = h.chunk.small in
      let o = h.chunk.ordered in
      let e = h.counted in
      let q = h.small in
      let p = s.1.ordered in
      let z = s.1.small in
      record {
        ordered = ground (arith, rest, s.0);
        whole = ground arith;
        counted = ground arith;
        updated = ground arith;
      }

  place_behind :
      c.chunk_end + 1 < tp.chunk_start
      → IsStored (c.chunk_end + 1) tp count (place tp count cs)
      → IsStored lo tp count (place tp count (c ∷ cs))
  unfolding place
  place_behind b rest =
      let w = h.chunk.small in
      let o = h.chunk.ordered in
      let p = s.1.ordered in
      let z = s.1.small in
      record {
        ordered = ground (arith, rest.ordered, s.0, s.1);
        whole = ground (arith, rest.whole);
        counted = ground (arith, rest.counted);
        updated = ground (arith, rest.updated);
      }

pub place-IsStored :
    (lo : ℕ) (tp : FileProgress) (count : ℕ) (cs : List FileProgress)
    → Carries tp count
    → Ordered lo cs
    → lo ≤ tp.chunk_start
    → ((x : ℕ) → in_chunk tp x ≡ true → covered cs x ≡ false)
    → IsStored lo tp count (place tp count cs)
unfolding place
place-IsStored lo tp count [] h s l apart = record {
  ordered = (l, h.chunk, tt);
  whole = refl;
  counted = refl;
  updated = refl;
}
place-IsStored lo tp count (c ∷ cs) h s l apart =
    let apart_later : (x : ℕ) → in_chunk tp x ≡ true → covered cs x ≡ false =
      λ x e. later x (apart x e) in
    let w = h.chunk.small in
    let o = h.chunk.ordered in
    let ih = place-IsStored (c.chunk_end + 1) tp count cs h s.2 in
    let behind = Ordered-behind (c.chunk_end + 1) tp cs s.2 in
    let side = before_or_behind tp c cs o s.1.ordered apart in
    elim side [
      | inl b ↦ place_before lo tp count c cs h s l b
      | inr b ↦ elim (ℕ_discrete (c.chunk_end + 1) tp.chunk_start) [
        | yes e ↦ place_touching lo tp count c cs h s l e (behind (omega arith) apart_later)
        | no ne ↦ place_behind lo tp count c cs h s l (omega arith) (ih (omega arith) apart_later)
      ]
    ]
  where
    later : (x : ℕ) → (in_chunk c x || covered cs x) ≡ false → covered cs x ≡ false
    later x e = ground arith
