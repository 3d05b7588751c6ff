-- ===== src/Dict/Entry.antt =====
-- struct e4__dict_header of core/include/e4.h. A dictionary is the list of its headers, the newest
-- first, in which the tail stands for `link`.
use e.Base.{ℕ, Bytes}

pub record Header : Type 0 where
  pub address : ℕ
  pub xt : ℕ
  pub flags : ℕ
  pub name : Bytes
