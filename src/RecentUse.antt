-- ===== src/RecentUse.antt =====
-- src/cache/recent_use.rs: two Bloom filters that approximate recent reads. A 64-bit word is the
-- list of its bits, the lowest first, so `fetch_or(1 << k)` writes a bit and `& (1 << k) != 0`
-- reads one. The hasher of the standard library is the parameter `hash`.
use flywheel.Prelude.{
  ℕ, zero, suc, ◌+◌, ◌-◌, ◌*◌, ◌/◌, ◌%◌, ◌^◌, Bool, true, false, ◌||◌, List, [], ◌∷◌, map, length,
  get_or, set, replicate, all, if◌then◌else◌, ◌==◌,
}
pub mod Bits
pub mod Marks

abbrev pub probes : ℕ
probes = 4

abbrev pub Word : Type 0
Word = List Bool

abbrev pub Filter : Type 0
Filter = List Word

pub record RecentUse : Type 0 where
  pub first : Filter
  pub second : Filter
  pub bits : ℕ
  pub active : ℕ

abbrev zero_word : Word
zero_word = replicate 64 false

-- `new_words`
unfoldable pub new_words : ℕ → Filter
new_words words = replicate words zero_word

-- `RecentUse::new`: `bits.div_ceil(64)` words.
unfoldable pub new : ℕ → RecentUse
unfolding new_words
new bits =
    let words = (bits + 63) / 64 in
    record { first = new_words words; second = new_words words; bits = words * 64; active = 0 }

unfoldable pub filter_at : RecentUse → ℕ → Filter
filter_at r i = if i == 0 then r.first else r.second

unfoldable pub with_filter : RecentUse → ℕ → Filter → RecentUse
with_filter r i f = if i == 0 then record r { first = f } else record r { second = f }

-- `filter[position / 64].fetch_or(1 << (position % 64))`
unfoldable pub set_bit : Filter → ℕ → Filter
set_bit f position = set f (position / 64) (set (get_or f (position / 64) []) (position % 64) true)

-- `filter[position / 64].load() & (1 << (position % 64)) != 0`
unfoldable pub get_bit : Filter → ℕ → Bool
get_bit f position = get_or (get_or f (position / 64) []) (position % 64) false

unfoldable pub set_bits : Filter → List ℕ → Filter
set_bits f [] = f
set_bits f (p ∷ ps) = set_bits (set_bit f p) ps

unfoldable pub contains : Filter → List ℕ → Bool
contains f ps = all (get_bit f) ps

-- One probe of `positions`, with the wrapping operations of `u64`.
unfoldable pub probe_position : ℕ → ℕ → ℕ → ℕ
probe_position seed bits probe =
    let start = seed % 2 ^ 32 in
    let high = seed / 2 ^ 32 in
    let step = if high % 2 == 0 then high + 1 else high in
    (start + step * probe % 2 ^ 64) % 2 ^ 64 % bits

unfoldable pub positions : ℕ → ℕ → List ℕ
positions seed bits = map (probe_position seed bits) (0 ∷ 1 ∷ 2 ∷ 3 ∷ [])

module _ {Channel Artifact : Type 0} (hash : Channel → Artifact → ℕ) where
  unfoldable pub mark : RecentUse → Channel → Artifact → RecentUse
  mark r channel artifact =
      let i = r.active % 2 in
      with_filter r i (set_bits (filter_at r i) (positions (hash channel artifact) r.bits))

  unfoldable pub seen : RecentUse → Channel → Artifact → Bool
  seen r channel artifact =
      let ps = positions (hash channel artifact) r.bits in
      contains (filter_at r 0) ps || contains (filter_at r 1) ps

-- `rotate`: `next` is the passive filter; its words are cleared and it becomes active.
unfoldable pub rotate : RecentUse → RecentUse
rotate r =
    let next = if r.active % 2 == 0 then 1 else 0 in
    record (with_filter r next (map (λ _. zero_word) (filter_at r next))) { active = next }
