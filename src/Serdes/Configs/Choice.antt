-- ===== src/Serdes/Configs/Choice.antt =====
-- The entry that is chosen for a serdes.
use ss_sbl.Prelude.{
  ℕ, zero, suc, ◌+◌, ◌/◌, ◌^◌, ◌≤◌, ◌<◌, ◌≡◌, refl, ap, ◌∙◌, ◌⊎◌, inl, inr, Bool, true, false, ◌&&◌,
  Bool-cases, if_true, if_false, none, some, List, [], ◌∷◌, ◌++◌, test_bit, test_bit-zero, arith,
}
use ss_sbl.Link.Consts.{enoent}
use ss_sbl.Serdes.Configs.{
  Config, ConfigKey, Scope, Best, best_with, best_of, result_of, narrower, scope_of, widest,
  num_bits_set, bits_from, is_match, get_serdes_config_values,
}

-- Every entry of a list has a property.
abbrev pub Every : (Config → Type 0) → List Config → Type 0
Every P [] = Unit
Every P (c ∷ cs) = P c × Every P cs

module _ (test : ConfigKey → Bool) where
  -- The entry passes the test, and is the narrowest of those of the list that do; of several it is the
  -- first.
  pub record Chosen (cs : List Config) (c : Config) : Type 0 where
    pub before : List Config
    pub after : List Config
    pub found : cs ≡ before ++ (c ∷ after)
    pub passes : test c.key ≡ true
    pub beats :
        Every (λ d. test d.key ≡ true → narrower (scope_of c.key) (scope_of d.key) ≡ true) before
    pub holds :
        Every (λ d. test d.key ≡ true → narrower (scope_of d.key) (scope_of c.key) ≡ false) after

  -- What the loop finds when it begins with a best entry
  abbrev Ran : List Config → Best → Type 0
  Ran cs b =
      ((best_of test cs b ≡ b)
        × Every (λ d. test d.key ≡ true → narrower (scope_of d.key) b.scope ≡ false) cs)
      ⊎ ((c : Config) × Chosen cs c
          × (best_of test cs b ≡ best_with c)
          × (narrower (scope_of c.key) b.scope ≡ true))

  narrower_trans : (x y z : Scope) → narrower x y ≡ true → narrower y z ≡ true → narrower x z ≡ true
  unfolding narrower
  narrower_trans x y z h k = ground arith

  narrower-not : (x y z : Scope) → narrower x z ≡ true → narrower y z ≡ false → narrower x y ≡ true
  unfolding narrower
  narrower-not x y z h k = ground arith

  first :
      (x : Config) (cs : List Config)
      → test x.key ≡ true
      → Every (λ d. test d.key ≡ true → narrower (scope_of d.key) (scope_of x.key) ≡ false) cs
      → Chosen (x ∷ cs) x
  first x cs passes others = record {
    before = [];
    after = cs;
    found = refl;
    passes = passes;
    beats = tt;
    holds = others;
  }

  later :
      (x c : Config) (cs : List Config)
      → Chosen cs c
      → (test x.key ≡ true → narrower (scope_of c.key) (scope_of x.key) ≡ true)
      → Chosen (x ∷ cs) c
  later x c cs ch beaten = record {
    before = x ∷ ch.before;
    after = ch.after;
    found = ap (λ (l : List Config). x ∷ l) ch.found;
    passes = ch.passes;
    beats = (beaten, ch.beats);
    holds = ch.holds;
  }

  best_of-Ran : (cs : List Config) (b : Best) → Ran cs b
  unfolding best_of
  best_of-Ran [] b = inl (refl, tt)
  best_of-Ran (x ∷ cs) b = elim (Bool-cases (test x.key && narrower (scope_of x.key) b.scope)) [
    | inl better ↦
        let step = ap (best_of test cs) (if_true (best_with x) b better) in
        let passes : test x.key ≡ true = ground arith in
        let below : narrower (scope_of x.key) b.scope ≡ true = ground arith in
        elim (best_of-Ran cs (best_with x)) [
          | inl (e, others) ↦ inr (x, first x cs passes others, step ∙ e, below)
          | inr (c, ch, e, n) ↦ inr (
            c,
            later x c cs ch (λ t. n),
            step ∙ e,
            narrower_trans (scope_of c.key) (scope_of x.key) b.scope n below,
          )
        ]
    | inr worse ↦
        let step = ap (best_of test cs) (if_false (best_with x) b worse) in
        let not_below : test x.key ≡ true → narrower (scope_of x.key) b.scope ≡ false =
          λ t. ground arith in
        elim (best_of-Ran cs b) [
          | inl (e, others) ↦ inl (step ∙ e, (not_below, others))
          | inr (c, ch, e, n) ↦ inr (
            c,
            later x c cs ch
                (λ t. narrower-not (scope_of c.key) (scope_of x.key) b.scope n (not_below t)),
            step ∙ e,
            n,
          )
        ]
  ]

test_bit-high : (k i x : ℕ) → x < 2 ^ k → k ≤ i → test_bit i x ≡ false
unfolding test_bit
test_bit-high zero i x h le = ap (test_bit i) (omega arith) ∙ test_bit-zero i
test_bit-high (suc k) zero x h le = absurd (omega arith)
test_bit-high (suc k) (suc i) x h le = test_bit-high k i (x / 2) (omega arith) (omega arith)

bits_from-le : (n i val : ℕ) → bits_from n i val ≤ n
unfolding bits_from
bits_from-le zero i val = omega arith
bits_from-le (suc n) i val = let rest = bits_from-le n (i + 1) val in ground arith

bits_from-high : (n i val : ℕ) → val < 256 → 8 ≤ i → bits_from n i val ≡ 0
unfolding bits_from
bits_from-high zero i val h le = refl
bits_from-high (suc n) i val h le =
    let rest = bits_from-high n (i + 1) val h (omega arith) in
    let bit = test_bit-high 8 i val h le in ground arith

bits_from-byte : (val : ℕ) → val < 256 → bits_from 64 0 val ≤ 8
unfolding bits_from
bits_from-byte val h = let rest = bits_from-high 56 8 val h (omega arith) in ground arith

scope_of-narrower : (k : ConfigKey) → k.serdes_mask < 256 → narrower (scope_of k) widest ≡ true
unfolding narrower scope_of num_bits_set
scope_of-narrower k h =
    let p = bits_from-le 64 0 k.port_mask in let s = bits_from-byte k.serdes_mask h in ground arith

no_match :
    (test : ConfigKey → Bool) (cs : List Config)
    → Every (λ c. c.key.serdes_mask < 256) cs
    → Every (λ d. test d.key ≡ true → narrower (scope_of d.key) widest ≡ false) cs
    → Every (λ d. test d.key ≡ false) cs
no_match test [] bytes others = tt
no_match test (c ∷ cs) (byte, bytes) (other, others) =
    let below = scope_of-narrower c.key byte in
    (
      elim (Bool-cases (test c.key)) [ inl t ↦ absurd (cc (below, other t)) | inr f ↦ f ],
      no_match test cs bytes others,
    )

-- For a serdes of a port and the two hashes, either no entry matches and -ENOENT is returned, or the
-- values are those of a matching entry that is narrower than every matching entry before it in the list,
-- while none after it is narrower: one for the fewest ports, then for the fewest serdes, then with the
-- most bits in its masks. The masks of the serdes are bytes.
pub get_serdes_config_values-best :
    (port serdes hash0 hash1 : ℕ) (cs : List Config)
    → Every (λ c. c.key.serdes_mask < 256) cs
    → ((get_serdes_config_values port serdes hash0 hash1 cs ≡ (enoent, none))
        × Every (λ d. is_match port serdes hash0 hash1 d.key ≡ false) cs)
      ⊎ ((c : Config) × Chosen (is_match port serdes hash0 hash1) cs c
          × (get_serdes_config_values port serdes hash0 hash1 cs ≡ (0, some c.vals)))
unfolding get_serdes_config_values
get_serdes_config_values-best port serdes hash0 hash1 cs bytes =
    let test = is_match port serdes hash0 hash1 in
    elim (best_of-Ran test cs (record { scope = widest; entry = none })) [
      | inl (e, others) ↦ inl (ap result_of e, no_match test cs bytes others)
      | inr (c, chosen, e, n) ↦ inr (c, chosen, ap result_of e)
    ]
