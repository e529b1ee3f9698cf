-- ===== src/Proxy/Offers.antt =====
-- src/proxy/mod.rs: what the order of the ranges in an Accept header means.
use mathlib.Core.List.{Permᴰ}
use flywheel.Prelude.{ℕ, ◌≡◌, refl, ap, subst, ◌∙◌, Option, none, some, List, ◌∷◌, All, arith}
use flywheel.Bytes.{Bytes}
use flywheel.Text.{split}
use flywheel.Proxy.Negotiation.{
  Quality, nan, number, Candidate, Candidates, Named, first, second, both, neither, offer,
  offer_named, media_range, offers, choose_python, choose_npm, acceptable, negotiate_python,
  negotiate_npm, python_named, npm_named, filled,
}

-- A candidate's quality is a number.
abbrev pub IsNumber : Quality → Type 0
IsNumber nan = ⊥
IsNumber (number n) = Unit

abbrev Numeric : Candidate → Type 0
Numeric none = Unit
Numeric (some (s, q)) = IsNumber q

offer-Numeric :
    (c : Candidate) (s : ℕ) (q : Quality) → Numeric c → IsNumber q → Numeric (offer c s q)
unfolding offer
offer-Numeric none s q h k = k
offer-Numeric (some (t, r)) s nan h k = elim k [ ]
offer-Numeric (some (t, nan)) s (number n) h k = elim h [ ]
offer-Numeric (some (t, number m)) s (number n) h k = ground arith

-- Two ranges of one candidate can be taken in either order.
offer_comm :
    (c : Candidate) (s t : ℕ) (q r : Quality)
    → Numeric c
    → IsNumber q
    → IsNumber r
    → offer (offer c s q) t r ≡ offer (offer c t r) s q
unfolding offer
offer_comm none s t (number m) (number n) h k l = ground arith
offer_comm (some (u, number o)) s t (number m) (number n) h k l = ground arith
offer_comm (some (u, nan)) s t q r h k l = elim h [ ]
offer_comm none s t nan r h k l = elim k [ ]
offer_comm none s t (number m) nan h k l = elim l [ ]
offer_comm (some (u, number o)) s t nan r h k l = elim k [ ]
offer_comm (some (u, number o)) s t (number m) nan h k l = elim l [ ]

-- The four ways to name candidates, one after the other.
offer_named_comm :
    (a b : Named) (q r : Quality) (c : Candidates)
    → Numeric c.0
    → Numeric c.1
    → IsNumber q
    → IsNumber r
    → offer_named b r (offer_named a q c) ≡ offer_named a q (offer_named b r c)
unfolding offer_named
offer_named_comm (first s) (first t) q r (c, d) h k m n =
    ap (λ x. (x, d)) (offer_comm c s t q r h m n)
offer_named_comm (first s) (second t) q r (c, d) h k m n = refl
offer_named_comm (first s) (both t) q r (c, d) h k m n =
    ap (λ x. (x, offer d t r)) (offer_comm c s t q r h m n)
offer_named_comm (first s) (neither t) q r (c, d) h k m n = refl
offer_named_comm (second s) (first t) q r (c, d) h k m n = refl
offer_named_comm (second s) (second t) q r (c, d) h k m n =
    ap (λ x. (c, x)) (offer_comm d s t q r k m n)
offer_named_comm (second s) (both t) q r (c, d) h k m n =
    ap (λ x. (offer c t r, x)) (offer_comm d s t q r k m n)
offer_named_comm (second s) (neither t) q r (c, d) h k m n = refl
offer_named_comm (both s) (first t) q r (c, d) h k m n =
    ap (λ x. (x, offer d s q)) (offer_comm c s t q r h m n)
offer_named_comm (both s) (second t) q r (c, d) h k m n =
    ap (λ x. (offer c s q, x)) (offer_comm d s t q r k m n)
offer_named_comm (both s) (both t) q r (c, d) h k m n =
    ap (λ x. (x, offer (offer d s q) t r)) (offer_comm c s t q r h m n)
    ∙ ap (λ x. (offer (offer c t r) s q, x)) (offer_comm d s t q r k m n)
offer_named_comm (both s) (neither t) q r (c, d) h k m n = refl
offer_named_comm (neither s) (first t) q r (c, d) h k m n = refl
offer_named_comm (neither s) (second t) q r (c, d) h k m n = refl
offer_named_comm (neither s) (both t) q r (c, d) h k m n = refl
offer_named_comm (neither s) (neither t) q r (c, d) h k m n = refl

offer_named-Numeric :
    (a : Named) (q : Quality) (c : Candidates)
    → IsNumber q
    → Numeric c.0 × Numeric c.1
    → Numeric (offer_named a q c).0 × Numeric (offer_named a q c).1
unfolding offer_named
offer_named-Numeric (first s) q (c, d) m (h, k) = (offer-Numeric c s q h m, k)
offer_named-Numeric (second s) q (c, d) m (h, k) = (h, offer-Numeric d s q k m)
offer_named-Numeric (both s) q (c, d) m (h, k) = (offer-Numeric c s q h m, offer-Numeric d s q k m)
offer_named-Numeric (neither s) q (c, d) m h = h

All-Permᴰ {ℓ κ} : {A : Type ℓ} (P : A → Type κ) {xs ys : List A} → Permᴰ xs ys → All P xs → All P ys
All-Permᴰ P Permᴰ.nil h = h
All-Permᴰ P (Permᴰ.cons e p) h = (subst P e h.0, All-Permᴰ P p h.1)
All-Permᴰ P (Permᴰ.swap e f) h = (subst P f h.1.0, (subst P e h.0, h.1.1))
All-Permᴰ P (Permᴰ.trans p q) h = All-Permᴰ P q (All-Permᴰ P p h)

module _ (parse_quality : Bytes → Option Quality) (one : Quality) where
  -- The range's quality is a number.
  abbrev pub Reads : Bytes → Type 0
  Reads range = IsNumber (media_range parse_quality one range).1

  offers-perm :
      (named : Bytes → Named) {xs ys : List Bytes} (c : Candidates)
      → Permᴰ xs ys
      → All Reads xs
      → Numeric c.0 × Numeric c.1
      → offers parse_quality one named xs c ≡ offers parse_quality one named ys c
  unfolding offers
  offers-perm named c Permᴰ.nil h n = refl
  offers-perm named c (Permᴰ.cons {a} {b} {l₁} {l₂} e p) h n =
      let (media, quality) = media_range parse_quality one a in
      offers-perm named (offer_named (named media) quality c) p h.1
        (offer_named-Numeric (named media) quality c h.0 n)
      ∙ ap (λ r. offers parse_quality one named (r ∷ l₂) c) e
  offers-perm named c (Permᴰ.swap {a} {b} {a' = a'} {b' = b'} {l} e f) h n =
      let (media, quality) = media_range parse_quality one a in
      let (media', quality') = media_range parse_quality one b in
      ap (offers parse_quality one named l)
        (offer_named_comm (named media) (named media') quality quality' c n.0 n.1 h.0 h.1.0)
      ∙ ap (λ r. offers parse_quality one named (r ∷ a ∷ l) c) f
      ∙ ap (λ r. offers parse_quality one named (a' ∷ r ∷ l) c) e
  offers-perm named c (Permᴰ.trans p q) h n =
      offers-perm named c p h n ∙ offers-perm named c q (All-Permᴰ Reads p h) n

  -- The order of the ranges in an Accept header does not matter, where every quality is a number
  -- and the header is not blank: the representation that a Python index or an npm document is
  -- served in is the same for two headers whose ranges are a permutation of one another.
  pub negotiate-perm :
      (accept accept' : Bytes)
      → Permᴰ (split 44 accept) (split 44 accept')
      → All Reads (split 44 accept)
      → filled parse_quality one (some accept) ≡ some accept
      → filled parse_quality one (some accept') ≡ some accept'
      → (negotiate_python parse_quality one (some accept)
          ≡ negotiate_python parse_quality one (some accept'))
        × (negotiate_npm parse_quality one (some accept)
            ≡ negotiate_npm parse_quality one (some accept'))
  unfolding negotiate_python negotiate_npm
  negotiate-perm accept accept' p h e e' = (
    rw (e, negotiate_python)
        (rw (e', negotiate_python)
          (ap (λ (c : Candidates). choose_python (acceptable c.0) (acceptable c.1))
            (offers-perm python_named (none, none) p h (tt, tt)))),
    rw (e, negotiate_npm)
        (rw (e', negotiate_npm)
          (ap (λ (c : Candidates). choose_npm (acceptable c.0) (acceptable c.1))
            (offers-perm npm_named (none, none) p h (tt, tt)))),
  )
