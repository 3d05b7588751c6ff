-- ===== src/Messages.antt =====
-- e4__usize_format_exception of core/src/util/usize.c.
pub mod Distinct
use Prim.Native.String.{String}
use e.Base.{ℕ, ◌==◌, if◌then◌else◌, Bytes, codes, length, List, [], ◌∷◌}
use e.Errors.{
  e_ok, e_abort, e_abortq, e_stkoverflow, e_stkunderflow, e_rstkoverflow, e_rstkunderflow,
  e_dictoverflow, e_invmemaddr, e_divbyzero, e_rsltoutorange, e_undefword, e_componlyword,
  e_invforget, e_zlname, e_pnooverflow, e_pstroverflow, e_unsupported, e_csmismatch, e_invnumarg,
  e_rstkimbalance, e_userinterrupt, e_nestedcompile, e_invnamearg, e_fileinvpos, e_fileio,
  e_filenoexist, e_eof, e_quit, e_close_file, e_open_file, e_read_file, e_failure, e_bye, e_bug,
  e_invbuiltinmut, e_dictunderflow, e_incfoverflow, e_longfilepath, e_dlfailure, e_seeoverflow,
  e_badffitype, e_badffiabi, e_unknownffierr,
}

-- A case of the switch.
pub record Message : Type 0 where
  pub code : ℕ
  pub text : Bytes

abbrev message : ℕ → String → Message
message e s = record { code = e; text = codes s }

abbrev pub unknown : Bytes
unknown = codes "unknown"

-- The cases of the switch.
unfoldable pub messages : List Message
messages =
    message e_ok "ok"
    ∷ message e_abort "abort"
    ∷ message e_abortq "abort with message"
    ∷ message e_stkoverflow "stack overflow"
    ∷ message e_stkunderflow "stack underflow"
    ∷ message e_rstkoverflow "return stack overflow"
    ∷ message e_rstkunderflow "return stack underflow"
    ∷ message e_dictoverflow "dictionary overflow"
    ∷ message e_invmemaddr "invalid memory address"
    ∷ message e_divbyzero "division by zero"
    ∷ message e_rsltoutorange "result out of range"
    ∷ message e_undefword "undefined word"
    ∷ message e_componlyword "interpreting a compile-only word"
    ∷ message e_invforget "invalid forget"
    ∷ message e_zlname "attempt to use zero-length string as a name"
    ∷ message e_pnooverflow "pictured numeric output string overflow"
    ∷ message e_pstroverflow "parsed string overflow"
    ∷ message e_unsupported "unsupported operation"
    ∷ message e_csmismatch "control structure mismatch"
    ∷ message e_invnumarg "invalid numeric argument"
    ∷ message e_rstkimbalance "return stack imbalance"
    ∷ message e_userinterrupt "user interrupt"
    ∷ message e_nestedcompile "compiler nesting"
    ∷ message e_invnamearg "invalid name argument"
    ∷ message e_fileinvpos "invalid file position"
    ∷ message e_fileio "file I/O exception"
    ∷ message e_filenoexist "non-existent file"
    ∷ message e_eof "unexpected end of file"
    ∷ message e_quit "quit"
    ∷ message e_close_file "CLOSE-FILE"
    ∷ message e_open_file "OPEN-FILE"
    ∷ message e_read_file "READ-FILE"
    ∷ message e_failure "generic failure"
    ∷ message e_bye "bye"
    ∷ message e_bug "system bug"
    ∷ message e_invbuiltinmut "attempt to mutate builtin"
    ∷ message e_dictunderflow "dictionary underflow"
    ∷ message e_incfoverflow "nested include overflow"
    ∷ message e_longfilepath "file path too long"
    ∷ message e_dlfailure "dynamic library failure"
    ∷ message e_seeoverflow "SEE buffer overflow"
    ∷ message e_badffitype "bad FFI type"
    ∷ message e_badffiabi "bad FFI ABI"
    ∷ message e_unknownffierr "unknown FFI error"
    ∷ []

-- The switch over some cases.
unfoldable pub text_of : List Message → ℕ → Bytes
text_of [] e = unknown
text_of (m ∷ ms) e = let further = text_of ms e in if e == m.code then m.text else further

-- e4__usize_format_exception; what is written through `len` is the length of the text.
unfoldable pub format_exception : ℕ → Bytes
format_exception e = text_of messages e
