-- ===== src/RecentUse/Marks.antt =====
-- src/cache/recent_use.rs: histories of marks and rotations.
use native.Mathlib.Nat.{mod-lt, div-add-mod}
use flywheel.Prelude.{
  ℕ, suc, ◌+◌, ◌*◌, ◌/◌, ◌%◌, ◌≤◌, ◌<◌, ◌≡◌, ◌≢◌, refl, sym, subst, true, false, List, [], ◌∷◌,
  arith, length-replicate, All-replicate, ◌==◌, ◌^◌, if◌then◌else◌, IsU64,
}
use flywheel.RecentUse.{
  RecentUse, zero_word, new, new_words, filter_at, with_filter, contains, positions, probe_position,
  mark, seen, rotate,
}
use flywheel.RecentUse.Bits.{
  IsWord, IsFilter, Fits, set_bits-IsFilter, contains-set_bits_keeps, contains-set_bits_self,
  get_bit-cleared, cleared-IsFilter,
}

pub record IsFormed (words : ℕ) (r : RecentUse) : Type 0 where
  pub some_words : 0 < words
  pub width : r.bits ≡ words * 64
  pub first_formed : IsFilter words r.first
  pub second_formed : IsFilter words r.second

-- Every probe is an index into the filters, so no access is out of bounds.
pub positions-Fits :
    (words seed bits : ℕ) → 0 < words → bits ≡ words * 64 → Fits words (positions seed bits)
unfolding positions probe_position
positions-Fits words seed bits pos e = (below _, (below _, (below _, (below _, tt))))
  where
    below : (x : ℕ) → x % bits < words * 64
    below x = omega (arith, mod-lt x {m = bits} (omega arith))

same_residue_parity : (words x y : ℕ) → x % (words * 64) ≡ y % (words * 64) → x % 2 ≡ y % 2
same_residue_parity words x y e =
    omega (arith, div-add-mod x (words * 64), div-add-mod y (words * 64))

-- With whole words and a 64-bit seed, the first two probes of a mark never fall on one bit.
pub probes_differ :
    (words seed bits : ℕ)
    → IsU64 seed
    → bits ≡ words * 64
    → probe_position seed bits 0 ≢ probe_position seed bits 1
unfolding probe_position
probes_differ words seed bits w e same = ground (
  arith,
  same_residue_parity words
      ((seed % 2 ^ 32
          + (if seed / 2 ^ 32 % 2 == 0 then seed / 2 ^ 32 + 1 else seed / 2 ^ 32) * 0 % 2 ^ 64)
        % 2 ^ 64)
      ((seed % 2 ^ 32
          + (if seed / 2 ^ 32 % 2 == 0 then seed / 2 ^ 32 + 1 else seed / 2 ^ 32) * 1 % 2 ^ 64)
        % 2 ^ 64),
)

-- A new filter is well formed, holds at least the bits asked for, and has seen nothing.
pub new-IsFormed :
    (bits : ℕ) → 0 < bits → IsFormed ((bits + 63) / 64) (new bits) × (bits ≤ (new bits).bits)
unfolding new new_words
new-IsFormed bits pos = (
  record { some_words = omega arith; width = refl; first_formed = fresh; second_formed = fresh },
  omega arith,
)
  where
    fresh : IsFilter ((bits + 63) / 64) (new_words ((bits + 63) / 64))
    fresh = (length-replicate _ zero_word, All-replicate IsWord _ zero_word refl)

module _ {Channel Artifact : Type 0} (hash : Channel → Artifact → ℕ) where
  pub mark-IsFormed :
      (words : ℕ) (r : RecentUse) (c : Channel) (a : Artifact)
      → IsFormed words r
      → IsFormed words (mark hash r c a)
  unfolding mark with_filter filter_at
  mark-IsFormed words r c a v =
      let ps = positions (hash c a) r.bits in
      let fits = positions-Fits words (hash c a) r.bits v.some_words v.width in
      ground (
        arith,
        set_bits-IsFilter words r.first ps v.first_formed fits,
        set_bits-IsFilter words r.second ps v.second_formed fits,
      )

  -- A read is seen right after it is marked: the filters give no false negative.
  pub seen-mark :
      (words : ℕ) (r : RecentUse) (c : Channel) (a : Artifact)
      → IsFormed words r
      → seen hash (mark hash r c a) c a ≡ true
  unfolding mark seen with_filter filter_at
  seen-mark words r c a v =
      let ps = positions (hash c a) r.bits in
      let fits = positions-Fits words (hash c a) r.bits v.some_words v.width in
      ground (
        arith,
        contains-set_bits_self words r.first ps v.first_formed fits,
        contains-set_bits_self words r.second ps v.second_formed fits,
      )

pub rotate-IsFormed : (words : ℕ) (r : RecentUse) → IsFormed words r → IsFormed words (rotate r)
unfolding rotate with_filter filter_at
rotate-IsFormed words r v = ground (
  arith,
  cleared-IsFilter words r.first v.first_formed.0,
  cleared-IsFilter words r.second v.second_formed.0,
)

pub data Event (Channel Artifact : Type 0) : Type 0 where
  marks : Channel → Artifact → Event Channel Artifact
  rotates : Event Channel Artifact

module _ {Channel Artifact : Type 0} (hash : Channel → Artifact → ℕ) where
  pub step : RecentUse → Event Channel Artifact → RecentUse
  step r (marks c a) = mark hash r c a
  step r rotates = rotate r

  pub run : RecentUse → List (Event Channel Artifact) → RecentUse
  run r [] = r
  run r (e ∷ es) = run (step r e) es

  -- How many rotations a run makes.
  abbrev pub rotations : List (Event Channel Artifact) → ℕ
  rotations [] = 0
  rotations (marks c a ∷ es) = rotations es
  rotations (rotates ∷ es) = suc (rotations es)

  -- Filter `i` holds all probes of the pair.
  abbrev Held : RecentUse → ℕ → Channel → Artifact → Type 0
  Held r i c a = contains (filter_at r i) (positions (hash c a) r.bits) ≡ true

  Held-mark :
      (r : RecentUse) (i : ℕ) (c d : Channel) (a b : Artifact)
      → Held r i c a
      → Held (mark hash r d b) i c a
  unfolding mark with_filter filter_at
  Held-mark r i c d a b h = ground (
    arith,
    contains-set_bits_keeps r.first (positions (hash d b) r.bits) (positions (hash c a) r.bits),
    contains-set_bits_keeps r.second (positions (hash d b) r.bits) (positions (hash c a) r.bits),
  )

  seen_of_Held :
      (r : RecentUse) (i : ℕ) (c : Channel) (a : Artifact) → Held r i c a → seen hash r c a ≡ true
  unfolding seen filter_at
  seen_of_Held r i c a h = ground arith

  Held-rotate :
      (r : RecentUse) (c : Channel) (a : Artifact)
      → Held r (r.active % 2) c a
      → Held (rotate r) (r.active % 2) c a
  unfolding rotate with_filter filter_at
  Held-rotate r c a h = ground arith

  active-mark : (r : RecentUse) (c : Channel) (a : Artifact) → (mark hash r c a).active ≡ r.active
  unfolding mark with_filter
  active-mark r c a = ground arith

  run-Held :
      (r : RecentUse) (i : ℕ) (es : List (Event Channel Artifact)) (c : Channel) (a : Artifact)
      → rotations es ≡ 0
      → Held r i c a
      → seen hash (run r es) c a ≡ true
  unfolding run step
  run-Held r i [] c a n h = seen_of_Held r i c a h
  run-Held r i (marks d b ∷ es) c a n h =
      run-Held (mark hash r d b) i es c a n (Held-mark r i c d a b h)
  run-Held r i (rotates ∷ es) c a n h = absurd (omega arith)

  run-Held_active :
      (r : RecentUse) (es : List (Event Channel Artifact)) (c : Channel) (a : Artifact)
      → rotations es ≤ 1
      → Held r (r.active % 2) c a
      → seen hash (run r es) c a ≡ true
  unfolding run step
  run-Held_active r [] c a n h = seen_of_Held r (r.active % 2) c a h
  run-Held_active r (marks d b ∷ es) c a n h = run-Held_active (mark hash r d b) es c a n (
      subst (λ k. Held (mark hash r d b) (k % 2) c a) (sym (active-mark r d b))
        (Held-mark r (r.active % 2) c d a b h))
  run-Held_active r (rotates ∷ es) c a n h =
      run-Held (rotate r) (r.active % 2) es c a (omega arith) (Held-rotate r c a h)

  mark-Held :
      (words : ℕ) (r : RecentUse) (c : Channel) (a : Artifact)
      → IsFormed words r
      → Held (mark hash r c a) (r.active % 2) c a
  unfolding mark with_filter filter_at
  mark-Held words r c a v =
      let ps = positions (hash c a) r.bits in
      let fits = positions-Fits words (hash c a) r.bits v.some_words v.width in
      ground (
        arith,
        contains-set_bits_self words r.first ps v.first_formed fits,
        contains-set_bits_self words r.second ps v.second_formed fits,
      )

  -- A mark on well-formed filters is still seen after any number of further marks and at most
  -- one rotation.
  pub seen-run-mark :
      (words : ℕ) (r : RecentUse) (c : Channel) (a : Artifact) (es : List (Event Channel Artifact))
      → IsFormed words r
      → rotations es ≤ 1
      → seen hash (run (mark hash r c a) es) c a ≡ true
  seen-run-mark words r c a es v n = run-Held_active (mark hash r c a) es c a n (
      subst (λ k. Held (mark hash r c a) (k % 2) c a) (sym (active-mark r c a))
        (mark-Held words r c a v))

  -- Two rotations with no read between them forget every mark: nothing is seen any more.
  pub seen-rotate-rotate :
      (r : RecentUse) (c : Channel) (a : Artifact) → seen hash (rotate (rotate r)) c a ≡ false
  unfolding rotate with_filter filter_at seen contains positions
  seen-rotate-rotate r c a =
      let p = probe_position (hash c a) r.bits 0 in
      ground (arith, get_bit-cleared r.first p, get_bit-cleared r.second p)
