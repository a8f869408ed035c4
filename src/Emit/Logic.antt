-- ===== src/Emit/Logic.antt =====
-- The cases of `Recompiler::Recompile` for logical operations and comparisons.
use xenon_recomp.Emit.{
  Ref, crf, xer, s32, u32, s64, u64, and_bits, xor_bits, equal, complement, clz32, clz64, dec, hex,
  int, bin, un, pick, Stmt, set, compare,
}
use xenon_recomp.Emit.Insn.{
  AndInst, inst_and, inst_andc, inst_andi, inst_andis, inst_attn, CompareInst, inst_clrldi,
  inst_clrlwi, inst_cmpd, inst_cmpdi, inst_cmpld, inst_cmpldi, inst_cmplw, inst_cmplwi, inst_cmpw,
  inst_cmpwi, inst_cntlzd, inst_cntlzw, XorInst, inst_xor, inst_xori, inst_xoris, Insn, op_r, op_cr,
  r_as, shifted16, compare_dot,
}
use xenon_recomp.Base.{ℕ, ◌-◌, ◌%◌, ◌^◌, List, [], ◌∷◌, sub32}

-- `AND` to `ATTN`.
unfoldable pub and_case : AndInst → Insn → List (Stmt Ref)
unfolding compare_dot
and_case inst_and i =
    set (op_r i 0) u64 (bin and_bits (r_as i 1 u64) (r_as i 2 u64)) ∷ compare_dot i s32
and_case inst_andc i =
    set (op_r i 0) u64 (bin and_bits (r_as i 1 u64) (un complement (r_as i 2 u64)))
    ∷ compare_dot i s32
and_case inst_andi i =
    set (op_r i 0) u64 (bin and_bits (r_as i 1 u64) (dec (i.operands 2)))
    ∷ compare (crf 0) s32 (r_as i 0 s32) (dec 0) xer
    ∷ []
and_case inst_andis i =
    set (op_r i 0) u64 (bin and_bits (r_as i 1 u64) (dec (shifted16 i 2)))
    ∷ compare (crf 0) s32 (r_as i 0 s32) (dec 0) xer
    ∷ []
and_case inst_attn i = []

-- `XOR` to `XORIS`.
unfoldable pub xor_case : XorInst → Insn → List (Stmt Ref)
unfolding compare_dot
xor_case inst_xor i =
    set (op_r i 0) u64 (bin xor_bits (r_as i 1 u64) (r_as i 2 u64)) ∷ compare_dot i s32
xor_case inst_xori i = set (op_r i 0) u64 (bin xor_bits (r_as i 1 u64) (dec (i.operands 2))) ∷ []
xor_case inst_xoris i = set (op_r i 0) u64 (bin xor_bits (r_as i 1 u64) (dec (shifted16 i 2))) ∷ []

-- `1ull << n`; the shift by 64, which C++ leaves undefined, keeps the count's low six bits as on x86.
abbrev one_shifted : ℕ → ℕ
one_shifted n = 2 ^ (n % 64)

-- `CCTPL` to `CNTLZW`.
unfoldable pub compare_case : CompareInst → Insn → List (Stmt Ref)
unfolding compare_dot
compare_case inst_clrldi i =
    set (op_r i 0) u64
      (bin and_bits (r_as i 1 u64) (hex (one_shifted (sub32 64 (i.operands 2)) - 1)))
    ∷ compare_dot i s64
compare_case inst_clrlwi i =
    set (op_r i 0) u64
      (bin and_bits (r_as i 1 u32) (hex (one_shifted (sub32 32 (i.operands 2)) - 1)))
    ∷ compare_dot i s32
compare_case inst_cmpd i = compare (op_cr i 0) s64 (r_as i 1 s64) (r_as i 2 s64) xer ∷ []
compare_case inst_cmpdi i = compare (op_cr i 0) s64 (r_as i 1 s64) (int (i.operands 2)) xer ∷ []
compare_case inst_cmpld i = compare (op_cr i 0) u64 (r_as i 1 u64) (r_as i 2 u64) xer ∷ []
compare_case inst_cmpldi i = compare (op_cr i 0) u64 (r_as i 1 u64) (dec (i.operands 2)) xer ∷ []
compare_case inst_cmplw i = compare (op_cr i 0) u32 (r_as i 1 u32) (r_as i 2 u32) xer ∷ []
compare_case inst_cmplwi i = compare (op_cr i 0) u32 (r_as i 1 u32) (dec (i.operands 2)) xer ∷ []
compare_case inst_cmpw i = compare (op_cr i 0) s32 (r_as i 1 s32) (r_as i 2 s32) xer ∷ []
compare_case inst_cmpwi i = compare (op_cr i 0) s32 (r_as i 1 s32) (int (i.operands 2)) xer ∷ []
compare_case inst_cntlzd i =
    set (op_r i 0) u64 (pick (bin equal (r_as i 1 u64) (dec 0)) (dec 64) (un clz64 (r_as i 1 u64)))
    ∷ []
compare_case inst_cntlzw i =
    set (op_r i 0) u64 (pick (bin equal (r_as i 1 u32) (dec 0)) (dec 32) (un clz32 (r_as i 1 u32)))
    ∷ []
compare_case _ i = []
