-- ===== src/Ring/Keys.antt =====
-- src/agent/ring.rs: the routing-key encoding.
use flywheel.Prelude.{
  ℕ, ◌≤◌, ◌<◌, ◌≡◌, ◌↔◌, ◌⊎◌, refl, sym, ap, ◌∙◌, List, [], ◌∷◌, ◌++◌, none, some, arith, length,
  Option-cases, inl, inr,
}
use flywheel.Bytes.{Bytes, to_be_bytes, from_be_bytes}
use flywheel.Bytes.Order.{append_inj}
use flywheel.Bytes.Words.{length-to_be_bytes, from_be_bytes-to_be_bytes}
use flywheel.Ring.{encode_parts, routing_key, routing_version}

-- A successful encoding starts with the length-prefixed first part.
encode_parts-cons :
    (part : Bytes) (parts : List Bytes) (key : Bytes)
    → encode_parts (part ∷ parts) ≡ some key
    → (rest : Bytes) × (length part ≤ 0xffff)
      × (encode_parts parts ≡ some rest)
      × (key ≡ to_be_bytes 2 (length part) ++ (part ++ rest))
unfolding encode_parts
encode_parts-cons part parts key h = elim (Option-cases (encode_parts parts)) [
  | inl e ↦ absurd (ground arith)
  | inr (rest, e) ↦ (rest, ground arith, e, ground arith)
]

length_prefix_inj : (n m : ℕ) → n ≤ 0xffff → m ≤ 0xffff → to_be_bytes 2 n ≡ to_be_bytes 2 m → n ≡ m
length_prefix_inj n m hn hm e = omega (
  arith,
  ap from_be_bytes e,
  from_be_bytes-to_be_bytes 2 n (omega arith),
  from_be_bytes-to_be_bytes 2 m (omega arith),
)

encode_parts_inj :
    (ps qs : List Bytes) (key : Bytes)
    → length ps ≡ length qs
    → encode_parts ps ≡ some key
    → encode_parts qs ≡ some key
    → ps ≡ qs
encode_parts_inj [] [] key n h k = refl
encode_parts_inj [] (_ ∷ qs) key n h k = absurd (omega arith)
encode_parts_inj (_ ∷ ps) [] key n h k = absurd (omega arith)
encode_parts_inj (p ∷ ps) (q ∷ qs) key n h k =
    let (r, short, hr, er) = encode_parts-cons p ps key h in
    let (s, short', hs, es) = encode_parts-cons q qs key k in
    let (prefix, tail) =
      append_inj (to_be_bytes 2 (length p)) (to_be_bytes 2 (length q)) (p ++ r) (q ++ s)
        (length-to_be_bytes 2 (length p) ∙ sym (length-to_be_bytes 2 (length q))) (sym er ∙ es) in
    let (head, rest) =
      append_inj p q r s (length_prefix_inj (length p) (length q) short short' prefix) tail in
    ground (arith, encode_parts_inj ps qs r)

-- The routing key determines the kind and the object: two objects with one key are the same.
pub routing_key_inj :
    (kind id kind' id' key : Bytes)
    → routing_key kind id ≡ some key
    → routing_key kind' id' ≡ some key
    → (kind ≡ kind') × (id ≡ id')
unfolding routing_key
routing_key_inj kind id kind' id' key h k =
    let same =
      encode_parts_inj (routing_version ∷ kind ∷ id ∷ []) (routing_version ∷ kind' ∷ id' ∷ []) key
        refl h k in
    ground arith

-- A key is refused exactly when the kind or the object's ID exceeds the two-byte length prefix.
pub routing_key-eq-none_iff :
    (kind id : Bytes)
    → (routing_key kind id ≡ none) ↔ ((0xffff < length kind) ⊎ (0xffff < length id))
unfolding routing_key encode_parts
routing_key-eq-none_iff kind id = (λ h. ground arith, λ h. ground arith)
