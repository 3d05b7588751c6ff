-- ===== src/Errors.antt =====
-- The error constants of core/include/e4.h, as the words that a function of type e4__usize returns
-- for them, and results that are either a value or such a word.
use e.Base.{ℕ, ◌-◌, ◌^◌}

abbrev pub e_ok : ℕ
e_ok = 0

abbrev pub e_abort : ℕ
e_abort = 2 ^ 64 - 1

abbrev pub e_abortq : ℕ
e_abortq = 2 ^ 64 - 2

abbrev pub e_stkoverflow : ℕ
e_stkoverflow = 2 ^ 64 - 3

abbrev pub e_stkunderflow : ℕ
e_stkunderflow = 2 ^ 64 - 4

abbrev pub e_rstkoverflow : ℕ
e_rstkoverflow = 2 ^ 64 - 5

abbrev pub e_rstkunderflow : ℕ
e_rstkunderflow = 2 ^ 64 - 6

abbrev pub e_dictoverflow : ℕ
e_dictoverflow = 2 ^ 64 - 8

abbrev pub e_invmemaddr : ℕ
e_invmemaddr = 2 ^ 64 - 9

abbrev pub e_divbyzero : ℕ
e_divbyzero = 2 ^ 64 - 10

abbrev pub e_rsltoutorange : ℕ
e_rsltoutorange = 2 ^ 64 - 11

abbrev pub e_undefword : ℕ
e_undefword = 2 ^ 64 - 13

abbrev pub e_componlyword : ℕ
e_componlyword = 2 ^ 64 - 14

abbrev pub e_invforget : ℕ
e_invforget = 2 ^ 64 - 15

abbrev pub e_zlname : ℕ
e_zlname = 2 ^ 64 - 16

abbrev pub e_pnooverflow : ℕ
e_pnooverflow = 2 ^ 64 - 17

abbrev pub e_pstroverflow : ℕ
e_pstroverflow = 2 ^ 64 - 18

abbrev pub e_unsupported : ℕ
e_unsupported = 2 ^ 64 - 21

abbrev pub e_csmismatch : ℕ
e_csmismatch = 2 ^ 64 - 22

abbrev pub e_invnumarg : ℕ
e_invnumarg = 2 ^ 64 - 24

abbrev pub e_rstkimbalance : ℕ
e_rstkimbalance = 2 ^ 64 - 25

abbrev pub e_userinterrupt : ℕ
e_userinterrupt = 2 ^ 64 - 28

abbrev pub e_nestedcompile : ℕ
e_nestedcompile = 2 ^ 64 - 29

abbrev pub e_invnamearg : ℕ
e_invnamearg = 2 ^ 64 - 32

abbrev pub e_fileinvpos : ℕ
e_fileinvpos = 2 ^ 64 - 36

abbrev pub e_fileio : ℕ
e_fileio = 2 ^ 64 - 37

abbrev pub e_filenoexist : ℕ
e_filenoexist = 2 ^ 64 - 38

abbrev pub e_eof : ℕ
e_eof = 2 ^ 64 - 39

abbrev pub e_quit : ℕ
e_quit = 2 ^ 64 - 56

abbrev pub e_close_file : ℕ
e_close_file = 2 ^ 64 - 62

abbrev pub e_open_file : ℕ
e_open_file = 2 ^ 64 - 69

abbrev pub e_read_file : ℕ
e_read_file = 2 ^ 64 - 70

abbrev pub e_failure : ℕ
e_failure = 2 ^ 64 - 256

abbrev pub e_bye : ℕ
e_bye = 2 ^ 64 - 257

abbrev pub e_bug : ℕ
e_bug = 2 ^ 64 - 258

abbrev pub e_invbuiltinmut : ℕ
e_invbuiltinmut = 2 ^ 64 - 259

abbrev pub e_dictunderflow : ℕ
e_dictunderflow = 2 ^ 64 - 260

abbrev pub e_incfoverflow : ℕ
e_incfoverflow = 2 ^ 64 - 261

abbrev pub e_longfilepath : ℕ
e_longfilepath = 2 ^ 64 - 262

abbrev pub e_seeoverflow : ℕ
e_seeoverflow = 2 ^ 64 - 263

abbrev pub e_dlfailure : ℕ
e_dlfailure = 2 ^ 64 - 264

abbrev pub e_badffitype : ℕ
e_badffitype = 2 ^ 64 - 265

abbrev pub e_badffiabi : ℕ
e_badffiabi = 2 ^ 64 - 266

abbrev pub e_unknownffierr : ℕ
e_unknownffierr = 2 ^ 64 - 267

-- A function that writes its results only when it returns e4__E_OK.
pub data Result {ℓ} (A : Type ℓ) : Type ℓ where
  ok : A → Result A
  err : ℕ → Result A
