-- ===== src/Fpscr/Laws.antt =====
-- The rounding mode goes through the host's register, and the conditional flush mode functions do
-- what the unconditional ones do.
use xenon_recomp.Base.{
  ℕ, ◌-◌, ◌*◌, ◌/◌, ◌%◌, ◌^◌, ◌≤◌, ◌<◌, ◌≡◌, refl, sym, ap, ◌∙◌, bit_and, bit_or, min, max, arith,
  bit, bit-lt, bit-two, bit-bit_and, bit-bit_or, bits-ext, bit-shift_left, bit-shift_left_out,
  bit-complement, bit-zero, bit_or-lt, bit_and-lt, dec_le,
}
use native.Mathlib.Nat.{one-le-pow, mul-div_cancel}
use xenon_recomp.Fpscr.{
  round_nearest, round_toward_zero, round_up, round_down, four, host_to_guest, HostCsr, Simde, x86,
  arm64, Fpscr, inverted, load_from_host, store_from_guest, enable_flush_mode_unconditional,
  disable_flush_mode_unconditional, enable_flush_mode, disable_flush_mode,
}

-- The documented layout of MXCSR.
pub record IsMxcsr (c : Simde) : Type 0 where
  pub round_mask : c.round_mask ≡ 0x6000
  pub flush_zero_mask : c.flush_zero_mask ≡ 0x8000
  pub denormals_zero_mask : c.denormals_zero_mask ≡ 0x0040
  pub nearest : c.nearest ≡ 0
  pub toward_zero : c.toward_zero ≡ 0x6000
  pub up : c.up ≡ 0x4000
  pub down : c.down ≡ 0x2000

field-digit : (s q k : ℕ) → q < 4 → bit (q * 2 ^ s) k ≤ bit (3 * 2 ^ s) k
field-digit s q k h = elim (dec_le s k) [
  | yes le ↦ rw (bit-shift_left s k q le, bit-shift_left s k 3 le) (bit-two q (k - s) h)
  | no gt ↦ omega (arith, bit-shift_left_out s k q (omega arith))
]

bit-inverted : (m k : ℕ) → m < 2 ^ 32 → k < 32 → bit (inverted m) k ≡ 1 - bit m k
bit-inverted m k hm hk = ap (λ (x : ℕ). bit x k) (omega (arith, hm)) ∙ bit-complement 32 k m hm hk

-- Digits of a mask that is cleared, and of a value inside the mask that is put in.
clear_put :
    (w c g m k : ℕ)
    → k < 32
    → m < 2 ^ 32
    → bit g k ≤ bit m k
    → bit (bit_and (bit_or (bit_and c (inverted m)) g) m) k ≡ bit g k
clear_put w c g m k hk hm sub =
    bit-bit_and k _ m
    ∙ ap (λ (x : ℕ). min x (bit m k)) (bit-bit_or k _ g)
    ∙ ap (λ (x : ℕ). min (max x (bit g k)) (bit m k)) (bit-bit_and k c (inverted m))
    ∙ ap (λ (x : ℕ). min (max (min (bit c k) x) (bit g k)) (bit m k)) (bit-inverted m k hm hk)
    ∙ omega (arith, sub, bit-lt c k, bit-lt m k, bit-lt g k)

-- A field of two bits is replaced and read again.
pub field_replaced :
    (s q c : ℕ)
    → q < 4
    → c < 2 ^ 32
    → 3 * 2 ^ s < 2 ^ 32
    → q * 2 ^ s < 2 ^ 32
    → bit_and (bit_or (bit_and c (inverted (3 * 2 ^ s))) (q * 2 ^ s)) (3 * 2 ^ s) ≡ q * 2 ^ s
field_replaced s q c hq hc hm hg =
    bits-ext 32 _ (q * 2 ^ s)
      (bit_and-lt 32 _ (3 * 2 ^ s) (bit_or-lt 32 _ (q * 2 ^ s) (bit_and-lt 32 c _ hc) hg)) hg
      (λ k hk. clear_put 32 c (q * 2 ^ s) (3 * 2 ^ s) k hk hm (field-digit s q k hq))

-- The host's encoding of a guest mode.
record Encodes (h : HostCsr) (q : ℕ → ℕ) : Type 0 where
  mask : h.round_mask ≡ 3 * 2 ^ h.round_shift
  fits : 3 * 2 ^ h.round_shift < 2 ^ 32
  code : (v : ℕ) → v < 4 → (h.guest_to_host v ≡ q v * 2 ^ h.round_shift) × (q v < 4)

abbrev pub x86_code : ℕ → ℕ
x86_code = four 0 3 2 1

abbrev pub arm_code : ℕ → ℕ
arm_code = four 0 3 1 2

x86_round : (v : ℕ) → v < 4 → host_to_guest (x86_code v) ≡ v
unfolding host_to_guest
x86_round v h = ground arith

arm_round :
    (v : ℕ)
    → v < 4
    → host_to_guest (arm_code v) ≡ four round_nearest round_toward_zero round_down round_up v
unfolding host_to_guest
arm_round v h = ground arith

rounding :
    (h : HostCsr) (q : ℕ → ℕ) (v : ℕ) (s : Fpscr)
    → Encodes h q
    → s.csr < 2 ^ 32
    → (load_from_host h (store_from_guest h v s)).1 ≡ host_to_guest (q (v % 4))
unfolding load_from_host store_from_guest
rounding h q v s e fits =
    let (codes, two) = e.code (v % 4) (omega arith) in
    let n = h.round_shift in
    let pos : 0 < 2 ^ n = one-le-pow n 2 (omega arith) in
    ap host_to_guest (
      ap
        (λ (m : ℕ).
          bit_and (bit_or (bit_and s.csr (inverted m)) (h.guest_to_host (v % 4))) m / 2 ^ n)
        e.mask
      ∙ ap
          (λ (g : ℕ). bit_and (bit_or (bit_and s.csr (inverted (3 * 2 ^ n))) g) (3 * 2 ^ n) / 2 ^ n)
          codes
      ∙ ap (λ (x : ℕ). x / 2 ^ n)
          (field_replaced n (q (v % 4)) s.csr two fits e.fits (grind (arith, e.fits, two)))
      ∙ mul-div_cancel (q (v % 4)) pos)

arm64-Encodes : Encodes arm64 arm_code
unfolding arm64
arm64-Encodes = record { mask = refl; fits = omega arith; code = λ v h. ground (arith, h) }

x86-Encodes : (c : Simde) → IsMxcsr c → Encodes (x86 c) x86_code
unfolding x86
x86-Encodes c m = record {
  mask = m.round_mask;
  fits = omega arith;
  code = λ v h. ground (arith, m, h);
}

-- The rounding mode that the guest stores comes back from the host's register on x86, for a register
-- of 32 bits and the documented layout of MXCSR. On ARM64 rounding up and rounding down come back
-- exchanged, since both hosts share one table of the codes.
pub load_from_host-store_from_guest :
    (c : Simde) (v : ℕ) (s : Fpscr)
    → IsMxcsr c
    → s.csr < 2 ^ 32
    → ((load_from_host (x86 c) (store_from_guest (x86 c) v s)).1 ≡ v % 4)
      × ((load_from_host arm64 (store_from_guest arm64 v s)).1
          ≡ four round_nearest round_toward_zero round_down round_up (v % 4))
load_from_host-store_from_guest c v s m fits = (
  rounding (x86 c) x86_code v s (x86-Encodes c m) fits ∙ x86_round (v % 4) (omega arith),
  rounding arm64 arm_code v s arm64-Encodes fits ∙ arm_round (v % 4) (omega arith),
)

-- Clearing bits that are zero, and setting bits that are one.
and_inverted : (c m : ℕ) → c < 2 ^ 32 → m < 2 ^ 32 → bit_and c m ≡ 0 → bit_and c (inverted m) ≡ c
and_inverted c m hc hm e = bits-ext 32 _ c (bit_and-lt 32 c _ hc) hc (λ k hk.
    bit-bit_and k c (inverted m)
    ∙ ap (λ (x : ℕ). min (bit c k) x) (bit-inverted m k hm hk)
    ∙ omega (
      arith,
      sym (bit-bit_and k c m) ∙ ap (λ (x : ℕ). bit x k) e ∙ bit-zero k,
      bit-lt c k,
      bit-lt m k,
    ))

or_mask : (c m : ℕ) → c < 2 ^ 32 → m < 2 ^ 32 → bit_and c m ≡ m → bit_or c m ≡ c
or_mask c m hc hm e = bits-ext 32 _ c (bit_or-lt 32 c m hc hm) hc (λ k hk.
    bit-bit_or k c m
    ∙ omega (arith, sym (bit-bit_and k c m) ∙ ap (λ (x : ℕ). bit x k) e, bit-lt c k, bit-lt m k))

-- Where the host's register holds what the field says, the tests of `enableFlushMode` and
-- `disableFlushMode` change nothing but the time taken: each does what its unconditional form does,
-- for registers and masks of 32 bits.
pub flush_mode-unconditional :
    (h : HostCsr) (s : Fpscr)
    → s.csr < 2 ^ 32
    → h.flush_mask < 2 ^ 32
    → s.host ≡ s.csr
    → (enable_flush_mode h s ≡ enable_flush_mode_unconditional h s)
      × (disable_flush_mode h s ≡ disable_flush_mode_unconditional h s)
unfolding enable_flush_mode enable_flush_mode_unconditional disable_flush_mode
    disable_flush_mode_unconditional
flush_mode-unconditional h s hc hm same = (
  ground (arith, or_mask s.csr h.flush_mask hc hm),
  ground (arith, and_inverted s.csr h.flush_mask hc hm),
)
