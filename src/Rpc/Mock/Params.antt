-- ===== src/Rpc/Mock/Params.antt =====
-- The type assertions of `getResult` in pkg/rpc/mock.go on a request's parameters.
use solana_exporter.Base.{ℤ, Bool, Text, text_eqb, List, Option, none, some, if◌then◌else◌}
use solana_exporter.Rpc.Wire.{Param, text, texts, number, boolean, object, Fields, end, field}

-- `none` where the assertion panics. A number is decoded as a `float64`, which is exact below 2^53.
abbrev pub string_of : Param → Option Text
string_of (text s) = some s
string_of _ = none

abbrev pub strings_of : Param → Option (List Text)
strings_of (texts ss) = some ss
strings_of _ = none

abbrev pub int_of : Param → Option ℤ
int_of (number n) = some n
int_of _ = none

abbrev pub bool_of : Param → Option Bool
bool_of (boolean b) = some b
bool_of _ = none

abbrev pub fields_of : Param → Option Fields
fields_of (object fields) = some fields
fields_of _ = none

-- A key that is missing gives `nil`, on which each assertion panics.
abbrev pub field_of : Text → Fields → Option Param
field_of key end = none
field_of key (field name value rest) =
    let later = field_of key rest in if text_eqb name key then some value else later
