-- ===== src/Fs/Super.antt =====
-- Which block groups hold a copy of the superblock.
use android_tools.Common.{
  ℕ, zero, suc, ◌*◌, ◌/◌, ◌%◌, ◌^◌, ◌≤◌, ◌<◌, ◌≡◌, ◌≢◌, ◌↔◌, ◌⊎◌, inl, inr, refl, ap, sym, ◌∙◌,
  arith, Bool, true, false, ◌||◌, ◌==◌, ltb, bit_and, Run, done, ==_iff, Bool-cases,
}
use native.Mathlib.Decide.{dec_lt}
use native.Mathlib.Nat.{
  pow-suc, pow-zero, one-le-pow, mul-div_cancel, mul-mod_left, div-mul-le_self,
}
use android_tools.Fs.{FsInfo, is_power_loop, is_power_of, sparse_super, or_else, bg_has_super_block}

-- `a` is `b` to a power of at least one.
abbrev pub IsPower : ℕ → ℕ → Type 0
IsPower a b = (k : ℕ) × (a ≡ b ^ suc k)

-- The run gives a Boolean that says whether `P` holds.
abbrev pub Decides : Run Bool → Type 0 → Type 0
Decides r P = (b : Bool) × (r ≡ done b) × ((b ≡ true) ↔ P)

power-one : (b : ℕ) → b ^ 1 ≡ b
power-one b = pow-suc b 0 ∙ omega (arith, ap (λ (t : ℕ). t * b) (pow-zero b))

power-le : (b k : ℕ) → 2 ≤ b → b ≤ b ^ suc k
power-le b k h = grind (arith, pow-suc b k, one-le-pow k b (omega arith))

-- A power that is not above the base is the base.
small_power : (a b k : ℕ) → 2 ≤ b → a ≡ b ^ suc k → a ≤ b → a ≡ b
small_power a b zero h e le = e ∙ power-one b
small_power a b (suc k) h e le = grind (arith, pow-suc b (suc k), power-le b k h)

-- Above the base, a multiple of the base is a power exactly when its quotient is.
quotient-IsPower : (a b : ℕ) → 2 ≤ b → b < a → a % b ≡ 0 → IsPower (a / b) b ↔ IsPower a b
quotient-IsPower a b h lt e = (there, back)
  where
    whole : a ≡ a / b * b
    whole = omega arith

    there : IsPower (a / b) b → IsPower a b
    there (k, p) = (suc k, whole ∙ (ap (λ (t : ℕ). t * b) p ∙ sym (pow-suc b (suc k))))

    back : IsPower a b → IsPower (a / b) b
    back (zero, p) = absurd (omega (arith, p ∙ power-one b))
    back (suc k, p) = (
      k,
      ap (λ (t : ℕ). t / b) (p ∙ pow-suc b (suc k)) ∙ mul-div_cancel (b ^ suc k) (omega arith),
    )

power-mod : (a b : ℕ) → IsPower a b → a % b ≡ 0
power-mod a b (k, p) = rw (p, pow-suc) (mul-mod_left (b ^ k) b)

half_or_less : (a b : ℕ) → 2 ≤ b → 0 < a → a / b < a
half_or_less a b h pos = grind (arith, div-mul-le_self a b)

decided :
    {r : Run Bool} {P : Type 0}
    → (b : Bool) → r ≡ done b
    → (b ≡ true → P)
    → (P → b ≡ true)
    → Decides r P
decided b e f g = (b, e, (f, g))

is_power_loop-Decides :
    (fuel a b : ℕ) → 2 ≤ b → a < fuel → Decides (is_power_loop fuel a b) (IsPower a b)
unfolding is_power_loop
is_power_loop-Decides zero a b h f = absurd (omega arith)
is_power_loop-Decides (suc fuel) a b h f = elim (dec_lt b a) [
  | no le ↦
      let test : ltb b a ≡ false = ground arith in
      rw test (
        decided (a == b) refl (λ e. (0, (==_iff a b).0 e ∙ sym (power-one b)))
          (λ p. (==_iff a b).1 (small_power a b p.0 h p.1 (omega arith))))
  | yes lt ↦
      let test : ltb b a ≡ true = ground arith in
      elim (Bool-cases (a % b == 0)) [
        | inr ne ↦
            rw (test, ne) (decided false refl (λ e. cc) (λ p. ground (arith, power-mod a b p)))
        | inl eq ↦
            let zero_rest : a % b ≡ 0 = ground arith in
            let q = quotient-IsPower a b h lt zero_rest in
            let smaller : a / b < a = half_or_less a b h (omega arith) in
            let (r, e, i) = is_power_loop-Decides fuel (a / b) b h (omega arith) in
            rw (test, eq) (decided r e (λ t. q.0 (i.0 t)) (λ p. i.1 (q.1 p)))
      ]
]

-- For `b` of at least 2 that is positive as an `int`, and any `a`, the loop of `is_power_of` ends,
-- and it says whether `a` is below `2 ^ 31`, so not negative, and a power of `b` with a positive
-- exponent.
pub is_power_of-Decides :
    (a b : ℕ) → 2 ≤ b → b < 2 ^ 31 → Decides (is_power_of a b) ((a < 2 ^ 31) × IsPower a b)
unfolding is_power_of
is_power_of-Decides a b h small = elim (dec_lt a (2 ^ 31)) [
  | yes lt ↦
      let test : ltb a (2 ^ 31) ≡ true = ground arith in
      let (r, e, i) = is_power_loop-Decides (suc a) a b h (omega arith) in
      rw test (decided r e (λ t. (lt, i.0 t)) (λ p. i.1 p.1))
  | no ge ↦
      let test : ltb a (2 ^ 31) ≡ false = ground arith in
      let other : (a == b) ≡ false = ground arith in
      rw (test, other) (decided false refl (λ e. cc) (λ p. absurd (omega (arith, p.0))))
]

or_else-Decides :
    {r s : Run Bool} {P Q : Type 0} → Decides r P → Decides s Q → Decides (or_else r s) (P ⊎ Q)
or_else-Decides {s = s} (true, e, i) d = rw e (decided true refl (λ t. inl (i.0 refl)) (λ p. refl))
or_else-Decides {s = s} (false, e, i) (b, e', i') =
    rw e (decided b e' (λ t. inr (i'.0 t)) (λ p. elim p [ inl q ↦ cc (i.1 q) | inr q ↦ i'.1 q ]))

-- the bound once for the three powers, and with each of them
gathered : {L P Q R : Type 0} → (L × P) ⊎ ((L × Q) ⊎ (L × R)) → L × (P ⊎ (Q ⊎ R))
gathered (inl (l, p)) = (l, inl p)
gathered (inr (inl (l, q))) = (l, inr (inl q))
gathered (inr (inr (l, r))) = (l, inr (inr r))

spread : {L P Q R : Type 0} → L × (P ⊎ (Q ⊎ R)) → (L × P) ⊎ ((L × Q) ⊎ (L × R))
spread (l, inl p) = inl (l, p)
spread (l, inr (inl q)) = inr (inl (l, q))
spread (l, inr (inr r)) = inr (inr (l, r))

-- With sparse superblocks, `ext4_bg_has_super_block` returns for any group number, and says whether
-- that is 0, 1, or below `2 ^ 31`, so not negative as an `int`, and a power of 3, 5 or 7 with a
-- positive exponent.
pub bg_has_super_block-Decides :
    (info : FsInfo) (bg : ℕ)
    → bit_and info.feat_ro_compat sparse_super ≢ 0
    → Decides
        (bg_has_super_block info bg)
        ((bg ≡ 0) ⊎ ((bg ≡ 1) ⊎ ((bg < 2 ^ 31) × (IsPower bg 3 ⊎ (IsPower bg 5 ⊎ IsPower bg 7)))))
unfolding bg_has_super_block
bg_has_super_block-Decides info bg h =
    let sparse : (bit_and info.feat_ro_compat sparse_super == 0) ≡ false = ground arith in
    elim (Bool-cases (bg == 0 || bg == 1)) [
      | inl e ↦ rw (sparse, e) (decided true refl (λ t. ground arith) (λ p. refl))
      | inr e ↦
          let (b, r, i) = or_else-Decides (is_power_of-Decides bg 3 (omega arith) (omega arith)) (
            or_else-Decides (is_power_of-Decides bg 5 (omega arith) (omega arith))
              (is_power_of-Decides bg 7 (omega arith) (omega arith))) in
          rw (sparse, e)
            (decided b r (λ t. inr (inr (gathered (i.0 t))))
              (λ p. elim p [
                | inl z ↦ ground arith
                | inr q ↦ elim q [ inl o ↦ ground arith | inr l ↦ i.1 (spread l) ]
              ]))
    ]
