-- ===== src/Lib.antt =====
-- XenonRecomp, a static recompiler of Xbox 360 executables: its loader and its static analyses.
--
-- The program reads an executable, maps its sections, finds the functions, the jump tables and the
-- register save and restore helpers in the code, and translates the functions to C++. The parts
-- modelled here are the loader, the analyses, and the translation of all but vector instructions.
--
-- Base and its children: Boolean tests, lists, words of 32 and 64 bits, the lemmas that the other
-- files share.
-- Ppc: the fields of instruction words (thirdparty/disasm/ppc.h) and XenonUtils/byteswap.h.
-- Memory: buffers as functions from offsets to bytes, and the reads and writes of the loaders.
-- Function: XenonAnalyse/function.cpp. `search_block` is SearchBlock and `analyze` is Analyze; a
-- `Walk` is the state of its loop (blocks, block stack, position in words) and `round` is one
-- iteration: none is a read past the block vector. The assert of the loop is compiled out.
-- Function/Search, Invariant, Branches, Rounds, Cover and Total hold the proofs. The loop runs on fuel; the block limit and the size bound the rounds.
-- Image: XenonUtils/section.h and the lookups of XenonUtils/image.cpp, sections as a list in the
-- order of their bases, pointers to data as offsets into the image.
-- Symbols: XenonUtils/symbol.h and XenonUtils/symbol_table.h, the multiset as an ordered list.
-- Crt: XenonUtils/crt_helpers.cpp; Crt/Scan is DetectCrtHelpers, Crt/Runs and Crt/First hold the
-- proofs.
-- Switch: XenonAnalyse/main.cpp: SearchMask, ScanTable, ReadTable (Switch/Read) and the section
-- loop of scanPattern, which runs on fuel above the number of words. Switch/Collect is scanPattern
-- over all sections and the four scans of main. The disassembler is a parameter.
-- Xex: the headers of XenonUtils/xex.h; Xex/Basic, Xex/Pe and Xex/Load are Xex2LoadImage of
-- XenonUtils/xex.cpp up to the import thunks, Xex/Imports the thunks and their symbols. AES, SHA-1, LZX and the allocator are parameters
-- (`Env`). The collection of LZX blocks runs on fuel above the length of the data: to use it up
-- is to read past the data.
-- Patch: XenonUtils/xex_patcher.cpp. Patch itself is the in-place decompression of a base file in
-- XexPatcher::apply, Patch/Delta lzxDecompress and lzxDeltaApplyPatch, Patch/Apply the guards and the
-- header stage of apply and Patch/Apply/Data its second half.
-- Patch/MemoryFile has the files that the LZX decoder reads and writes. The LZX decoder (`Lzxd`) is a
-- parameter. The loop over delta patches has fuel for one byte each, and each takes twelve.
-- Loader: Image::ParseImage and ElfLoadImage of XenonUtils/image.cpp, with XenonUtils/elf.h.
-- Loader/Config is RecompilerConfig::Load of XenonRecomp/recompiler_config.cpp, where the values of
-- the TOML tables are parameters, and Loader/Config/Start is Recompiler::LoadConfig of
-- XenonRecomp/recompiler.cpp, where the files are.
-- Output: Recompile of an executable and SaveCurrentOutData of XenonRecomp/recompiler.cpp; the file
-- system and the hash are parameters (`Disk`). Output/Files and Functions hold the proofs.
-- Xdbf: XDBFWrapper of XenonUtils/xdbf_wrapper.cpp, with XenonUtils/xdbf.h.
-- Fpscr: PPCFPSCRRegister of XenonUtils/ppc_context.h; the constants of simde are a parameter.
-- Recompiler: Recompiler::Analyse of XenonRecomp/recompiler.cpp. Recompiler/Helpers makes the
-- entries of the register helpers (Helpers/Parts and Exact hold the proofs), Entries the functions
-- of the configuration and of .pdata, Sections scans a code section (on fuel above its size),
-- Extend grows functions over the labels of their jump tables, and Analyse composes them.
-- Function::Analyze, the section's words and the formatting of names are parameters of the scans.
-- Emit: Recompiler::Recompile of an instruction and of a function, in XenonRecomp/recompiler.cpp.
-- The printed C++ is a syntax tree whose names are, in a case of the switch, the lambdas called (`Ref`)
-- and, in the output, the names that they return (`Var`). Emit/Insn has the instruction ids by the part
-- of the switch that handles them; Arith, Logic, Shifts, Loads, Stores, Floats, Moves and Branches the
-- cases; Translate the local variables, printSetFlushMode, the hooks and the switch; Fn the labels,
-- the loop over the words and the declarations. Names, Plain and Targets are about the text, and
-- Fn/Recorded, Declared, Goto, Labels, Encoding, Closed and Listed hold the proofs about functions. The
-- disassembler is a parameter. A hook is a number with its registers; its declaration, the function's name, comments and
-- console output are left out. Loops over words run as often as there are words.
-- Cxx: what the printed lines compute: integer types, promotions and conversions of C++, with the
-- unions and macros of XenonUtils/ppc_context.h. Operations on floating-point values and division are
-- a parameter (`Host`). Cxx/Carry, Rotate, Order, Access and StoreLoad compare the lines of an
-- instruction with the description of the processor's manual; Put is what they share.
-- Tests: the theorems at concrete inputs.
--
-- Not modelled: the vector instructions, which have no ids, the command lines, printing, TOML
-- parsing and file access; the vendored disassembler and SHA-1.
pub mod Base
pub mod Crt
pub mod Cxx
pub mod Emit
pub mod Fpscr
pub mod Function
pub mod Image
pub mod Loader
pub mod Memory
pub mod Output
pub mod Patch
pub mod Ppc
pub mod Recompiler
pub mod Switch
pub mod Symbols
pub mod Tests
pub mod Xdbf
pub mod Xex
