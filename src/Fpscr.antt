-- ===== src/Fpscr.antt =====
-- `PPCFPSCRRegister` of `XenonUtils/ppc_context.h`: the rounding mode and the flush mode of the host,
-- on x86 and on ARM64.
pub mod Laws
use xenon_recomp.Base.{ℕ, ◌-◌, ◌*◌, ◌/◌, ◌%◌, ◌^◌, not, ◌==◌, if◌then◌else◌, bit_and, bit_or}

-- `PPC_ROUND_NEAREST` and the rest.
abbrev pub round_nearest : ℕ
round_nearest = 0

abbrev pub round_toward_zero : ℕ
round_toward_zero = 1

abbrev pub round_up : ℕ
round_up = 2

abbrev pub round_down : ℕ
round_down = 3

-- A table of four entries by its index.
abbrev pub four : ℕ → ℕ → ℕ → ℕ → ℕ → ℕ
four a b c d i = if i == 0 then a else if i == 1 then b else if i == 2 then c else d

-- `HostToGuest`, one table for both hosts.
unfoldable pub host_to_guest : ℕ → ℕ
host_to_guest = four round_nearest round_down round_up round_toward_zero

-- The constants of a host.
pub record HostCsr : Type 0 where
  pub round_shift : ℕ
  pub round_mask : ℕ
  pub flush_mask : ℕ
  pub guest_to_host : ℕ → ℕ

-- The constants of simde and of the compiler for the register MXCSR.
pub record Simde : Type 0 where
  pub round_mask : ℕ
  pub flush_zero_mask : ℕ
  pub denormals_zero_mask : ℕ
  pub nearest : ℕ
  pub toward_zero : ℕ
  pub up : ℕ
  pub down : ℕ

unfoldable pub x86 : Simde → HostCsr
x86 c = record {
  round_shift = 13;
  round_mask = c.round_mask;
  flush_mask = bit_or c.flush_zero_mask c.denormals_zero_mask;
  guest_to_host = four c.nearest c.toward_zero c.up c.down;
}

unfoldable pub arm64 : HostCsr
arm64 = record {
  round_shift = 22;
  round_mask = 3 * 2 ^ 22;
  flush_mask = bit_or (2 ^ 19) (2 ^ 24);
  guest_to_host = four (0 * 2 ^ 22) (3 * 2 ^ 22) (1 * 2 ^ 22) (2 * 2 ^ 22);
}

-- The field `csr`, and the host's register behind `getcsr` and `setcsr`.
pub record Fpscr : Type 0 where
  pub csr : ℕ
  pub host : ℕ

-- `~mask` on a `uint32_t`.
abbrev pub inverted : ℕ → ℕ
inverted m = 2 ^ 32 - 1 - m % 2 ^ 32

-- A new `csr` that is also set in the host.
abbrev pub set_csr : ℕ → Fpscr
set_csr n = record { csr = n; host = n }

module _ (h : HostCsr) where
  -- `loadFromHost`: the register and the guest's rounding mode.
  unfoldable pub load_from_host : Fpscr → Fpscr × ℕ
  unfolding host_to_guest
  load_from_host s = (
    record { csr = s.host; host = s.host },
    host_to_guest (bit_and s.host h.round_mask / 2 ^ h.round_shift),
  )

  -- `storeFromGuest`.
  unfoldable pub store_from_guest : ℕ → Fpscr → Fpscr
  store_from_guest value s =
      set_csr (bit_or (bit_and s.csr (inverted h.round_mask)) (h.guest_to_host (value % 4)))

  -- `enableFlushModeUnconditional` and `disableFlushModeUnconditional`.
  unfoldable pub enable_flush_mode_unconditional : Fpscr → Fpscr
  enable_flush_mode_unconditional s = set_csr (bit_or s.csr h.flush_mask)

  unfoldable pub disable_flush_mode_unconditional : Fpscr → Fpscr
  disable_flush_mode_unconditional s = set_csr (bit_and s.csr (inverted h.flush_mask))

  -- `enableFlushMode` and `disableFlushMode`.
  unfoldable pub enable_flush_mode : Fpscr → Fpscr
  enable_flush_mode s =
      if not (bit_and s.csr h.flush_mask == h.flush_mask)
      then set_csr (bit_or s.csr h.flush_mask)
      else s

  unfoldable pub disable_flush_mode : Fpscr → Fpscr
  disable_flush_mode s =
      if not (bit_and s.csr h.flush_mask == 0)
      then set_csr (bit_and s.csr (inverted h.flush_mask))
      else s
