-- ===== src/Xsl/Roman/Tables.antt =====
-- What the tables of `evalNumbering` say of one another.
use xemeiah.Xsl.Roman.{
  rom_val, rom_pre_val, maj_rom_char, min_rom_char, maj_rom_pre_char, min_rom_pre_char, rom_char,
  rom_pre_char, letter_value,
}
use xemeiah.Prelude.{ℕ, zero, suc, ◌+◌, ◌-◌, ◌≤◌, ◌<◌, ◌≡◌, refl, Bool, true, false, arith}

-- What the tables say of one another.
pub record Tables (upper : Bool) (nb : ℕ) : Type 0 where
  pub char : letter_value (rom_char upper nb) ≡ rom_val nb
  pub pre : letter_value (rom_pre_char upper nb) + rom_pre_val nb ≡ rom_val nb
  pub pre_less : 0 < rom_pre_val nb
  pub pre_small : 0 < letter_value (rom_pre_char upper nb)
  pub next : rom_val (nb - 1) ≤ rom_val nb
  pub positive : 0 < nb

pub tables : (upper : Bool) (nb : ℕ) → (0 < nb) × (nb ≤ 6) → Tables upper nb
unfolding rom_val rom_pre_val rom_char rom_pre_char letter_value maj_rom_char min_rom_char
    maj_rom_pre_char min_rom_pre_char
tables upper zero h = absurd (omega (arith, h.0))
tables true (suc zero) h = record {
  char = refl;
  pre = refl;
  pre_less = omega arith;
  pre_small = omega arith;
  next = omega arith;
  positive = omega arith;
}
tables true (suc (suc zero)) h = record {
  char = refl;
  pre = refl;
  pre_less = omega arith;
  pre_small = omega arith;
  next = omega arith;
  positive = omega arith;
}
tables true (suc (suc (suc zero))) h = record {
  char = refl;
  pre = refl;
  pre_less = omega arith;
  pre_small = omega arith;
  next = omega arith;
  positive = omega arith;
}
tables true (suc (suc (suc (suc zero)))) h = record {
  char = refl;
  pre = refl;
  pre_less = omega arith;
  pre_small = omega arith;
  next = omega arith;
  positive = omega arith;
}
tables true (suc (suc (suc (suc (suc zero))))) h = record {
  char = refl;
  pre = refl;
  pre_less = omega arith;
  pre_small = omega arith;
  next = omega arith;
  positive = omega arith;
}
tables true (suc (suc (suc (suc (suc (suc zero)))))) h = record {
  char = refl;
  pre = refl;
  pre_less = omega arith;
  pre_small = omega arith;
  next = omega arith;
  positive = omega arith;
}
tables false (suc zero) h = record {
  char = refl;
  pre = refl;
  pre_less = omega arith;
  pre_small = omega arith;
  next = omega arith;
  positive = omega arith;
}
tables false (suc (suc zero)) h = record {
  char = refl;
  pre = refl;
  pre_less = omega arith;
  pre_small = omega arith;
  next = omega arith;
  positive = omega arith;
}
tables false (suc (suc (suc zero))) h = record {
  char = refl;
  pre = refl;
  pre_less = omega arith;
  pre_small = omega arith;
  next = omega arith;
  positive = omega arith;
}
tables false (suc (suc (suc (suc zero)))) h = record {
  char = refl;
  pre = refl;
  pre_less = omega arith;
  pre_small = omega arith;
  next = omega arith;
  positive = omega arith;
}
tables false (suc (suc (suc (suc (suc zero))))) h = record {
  char = refl;
  pre = refl;
  pre_less = omega arith;
  pre_small = omega arith;
  next = omega arith;
  positive = omega arith;
}
tables false (suc (suc (suc (suc (suc (suc zero)))))) h = record {
  char = refl;
  pre = refl;
  pre_less = omega arith;
  pre_small = omega arith;
  next = omega arith;
  positive = omega arith;
}
tables upper (suc (suc (suc (suc (suc (suc (suc nb))))))) h = absurd (omega (arith, h.1))
