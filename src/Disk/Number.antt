-- ===== src/Disk/Number.antt =====
-- Inode numbers (src/xal_be_xfs.c): xal_ino_decode_absolute() against the layout of a number.
use native.Mathlib.Nat.{
  mul-add-div_right, mul-add-mod_self_right, div-eq_of_lt, mod-eq_of_lt, div-add-mod', mul_assoc,
  div-div-eq-div-mul, pow-suc, pow-le-pow_right, mul_comm,
}
use xal.Base.{
  ℕ, zero, suc, ◌+◌, ◌-◌, ◌*◌, ◌/◌, ◌%◌, ◌^◌, ◌≤◌, ◌<◌, ◌≡◌, refl, sym, ap, ◌∙◌, arith, u32_mod,
}
use xal.Model.{Sb}
use xal.Disk.{ino_decode_absolute, ino_decode_relative}

-- The number of an inode: its group, its block in the group, and its place in the block.
abbrev pub ino_number : Sb → ℕ → ℕ → ℕ → ℕ
ino_number sb seqno agbno agbino = (seqno * 2 ^ sb.agblklog + agbno) * 2 ^ sb.inopblog + agbino

two_pos : (k : ℕ) → 0 < 2 ^ k
two_pos zero = omega arith
two_pos (suc k) = omega (arith, two_pos k, pow-suc 2 k)

pow_add : (a b c : ℕ) → c ≡ a + b → 2 ^ c ≡ 2 ^ a * 2 ^ b
pow_add zero b c e = let same : c ≡ b = omega arith in rw same (omega arith)
pow_add (suc a) b c e =
    let same : c ≡ suc (a + b) = omega arith in
    rw (same, pow-suc 2 (a + b), pow-suc 2 a, pow_add a b (a + b) refl)
      (omega (arith, mul_assoc (2 ^ a) 2 (2 ^ b), mul_comm 2 (2 ^ b), mul_assoc (2 ^ a) (2 ^ b) 2))

-- A number's place in the block and block in the group are in what is left of it modulo a multiple.
cut :
    (n m q p k : ℕ)
    → 0 < q
    → 0 < p
    → m ≡ k * p * q
    → (n % m / q % p ≡ n / q % p) × (n % m % q ≡ n % q)
cut n m q p k posq posp e = (
  sym (
      ap (λ (x : ℕ). x / q % p) whole
      ∙ rw (mul-add-div_right posq (n / m * k * p) (n % m))
          (mul-add-mod_self_right (n / m * k) p (n % m / q))),
  sym (ap (λ (x : ℕ). x % q) whole ∙ mul-add-mod_self_right (n / m * k * p) q (n % m)),
)
  where
    whole : n ≡ n / m * k * p * q + n % m
    whole =
        sym (div-add-mod' n m)
        ∙ ap (λ (x : ℕ). x + n % m)
            (ap (λ (x : ℕ). n / m * x) e
              ∙ (sym (mul_assoc (n / m) (k * p) q)
                  ∙ ap (λ (x : ℕ). x * q) (sym (mul_assoc (n / m) k p))))

-- xal_ino_decode_absolute() takes the number of an inode apart again, where groups are counted in 32
-- bits and the number of an inode in its group, which the call cuts to 32 bits, has no more.
pub ino_decode_absolute-number :
    (sb : Sb) (seqno agbno agbino : ℕ)
    → sb.agblklog + sb.inopblog ≤ 32
    → seqno < u32_mod
    → agbno < 2 ^ sb.agblklog
    → agbino < 2 ^ sb.inopblog
    → ino_decode_absolute sb (ino_number sb seqno agbno agbino) ≡ (seqno, agbno, agbino)
unfolding ino_decode_absolute ino_decode_relative
ino_decode_absolute-number sb seqno agbno agbino fits small in_group in_block =
    rw (groups, parts.0, blocks, parts.1, places, mod-eq_of_lt small, mod-eq_of_lt place_small) refl
  where
    n : ℕ
    n = ino_number sb seqno agbno agbino

    p : ℕ
    p = 2 ^ sb.agblklog

    q : ℕ
    q = 2 ^ sb.inopblog

    k : ℕ
    k = 2 ^ (32 - (sb.agblklog + sb.inopblog))

    modulus : u32_mod ≡ k * p * q
    modulus =
        pow_add (32 - (sb.agblklog + sb.inopblog)) (sb.agblklog + sb.inopblog) 32 (omega arith)
        ∙ (ap (λ (x : ℕ). k * x) (pow_add sb.agblklog sb.inopblog (sb.agblklog + sb.inopblog) refl)
            ∙ sym (mul_assoc k p q))

    parts : (n % u32_mod / q % p ≡ n / q % p) × (n % u32_mod % q ≡ n % q)
    parts = cut n u32_mod q p k (two_pos sb.inopblog) (two_pos sb.agblklog) modulus

    over : n / q ≡ seqno * p + agbno
    over =
        mul-add-div_right (two_pos sb.inopblog) (seqno * p + agbno) agbino
        ∙ omega (arith, div-eq_of_lt in_block)

    blocks : n / q % p ≡ agbno
    blocks = rw over (mul-add-mod_self_right seqno p agbno ∙ mod-eq_of_lt in_group)

    places : n % q ≡ agbino
    places = mul-add-mod_self_right (seqno * p + agbno) q agbino ∙ mod-eq_of_lt in_block

    groups : n / 2 ^ (sb.inopblog + sb.agblklog) ≡ seqno
    groups =
        rw
          (
            pow_add sb.inopblog sb.agblklog (sb.inopblog + sb.agblklog) refl,
            ← div-div-eq-div-mul n q p,
            over,
          )
          (mul-add-div_right (two_pos sb.agblklog) seqno agbno
            ∙ omega (arith, div-eq_of_lt in_group))

    place_small : agbino < u32_mod
    place_small = omega (
      arith,
      in_block,
      pow-le-pow_right {n = 2} (omega arith) {i = sb.inopblog} {j = 32} (omega arith),
    )
