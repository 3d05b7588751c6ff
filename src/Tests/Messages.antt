-- ===== src/Tests/Messages.antt =====
-- A message and its code.
use e.Base.{◌≡◌, refl, codes}
use e.Errors.{e_divbyzero}
use e.Messages.{messages, format_exception, text_of}

divbyzero_text : format_exception e_divbyzero ≡ codes "division by zero"
unfolding format_exception messages text_of
divbyzero_text = refl
