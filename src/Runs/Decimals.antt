-- ===== src/Runs/Decimals.antt =====
-- Runs of src/types/decimal.rs.
use clickhouse_rs.Prelude.{◌-◌, ◌^◌, ◌≡◌, refl, arith, true, ◌++◌, Bytes, length, some}
use clickhouse_rs.Prelude.Int.{pos, negsuc}
use clickhouse_rs.Text.{codes, parse, digits}
use clickhouse_rs.Column.Names.{n64}
use clickhouse_rs.Decimal.{Decimal, decimal_eq, set_scale, decimal2str}
use clickhouse_rs.Decimal.Scaling.{set_scale-grows}
use clickhouse_rs.Decimal.Texts.{Pointed, decimal2str-parse}

-- -0.012 and 0.012
abbrev below : Decimal
below = record { underlying = negsuc 11; nobits = n64; precision = 18; scale = 3 }

abbrev above : Decimal
above = record { underlying = pos 12; nobits = n64; precision = 18; scale = 3 }

set_scale-grows_example :
    (e : Decimal) × (set_scale below 5 ≡ some e)
    × (e.scale ≡ 5)
    × (decimal_eq below e ≡ some true)
    × (decimal_eq e below ≡ some true)
    × (set_scale e 3 ≡ some below)
set_scale-grows_example = set_scale-grows below 5 (omega arith) (omega arith) (omega arith)

decimal2str-parse_example :
    (before after : Bytes) × Pointed (decimal2str above) before after
    × (length after ≡ 3)
    × (parse (2 ^ 63 - 1) (before ++ after) ≡ some 12)
decimal2str-parse_example = decimal2str-parse above 12 refl (omega arith)

text_above : decimal2str above ≡ codes "0.012"
unfolding decimal2str digits clickhouse_rs.Text.show_signed
text_above = refl

-- The sign of a small negative number is behind the zeros.
text_below : decimal2str below ≡ codes "0.-12"
unfolding decimal2str digits clickhouse_rs.Text.show_signed
text_below = refl
