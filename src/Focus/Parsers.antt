-- ===== src/Focus/Parsers.antt =====
-- packages/focus/src/cloudcause_focus/parsers.py: charge categories, amounts and names. `key_of` keeps the
-- letters and digits of a text in lower case, `lower` is `str.lower`, and `parse` is `float` of a text.
use Prim.Native.String.{len}
use cloudcause.Prelude.{String, Option, none, some, [], ◌∷◌, string_eq, ◌==◌, if◌then◌else◌}
use cloudcause.Prelude.Dict.{Dict, get, get_or}
use cloudcause.Prelude.Text.{has_part, after_last}
use cloudcause.Contracts.Records.{ChargeCategory, usage, purchase, tax, credit, adjustment, unknown}

abbrev pub aws_charge_types : Dict String ChargeCategory
aws_charge_types =
    ("usage", usage)
    ∷ ("discountedusage", usage)
    ∷ ("savingsplancoverednusage", usage)
    ∷ ("savingsplancoveredusage", usage)
    ∷ ("savingsplanrecurringfee", purchase)
    ∷ ("ripurchase", purchase)
    ∷ ("fee", purchase)
    ∷ ("tax", tax)
    ∷ ("credit", credit)
    ∷ ("refund", credit)
    ∷ ("savingsplannegation", adjustment)
    ∷ ("edpdiscount", adjustment)
    ∷ ("rifee", purchase)
    ∷ ("enterprisediscountprogramdiscount", adjustment)
    ∷ ("bundleddiscount", adjustment)
    ∷ []

abbrev pub azure_charge_types : Dict String ChargeCategory
azure_charge_types =
    ("usage", usage)
    ∷ ("purchase", purchase)
    ∷ ("tax", tax)
    ∷ ("refund", credit)
    ∷ ("unusedreservation", usage)
    ∷ ("adjustment", adjustment)
    ∷ []

-- value or default, of a cell that may be missing
abbrev cell_or : String → Option String → String
cell_or default none = default
cell_or default (some value) = if value == "" then default else value

-- `aws_charge_category`
unfoldable pub aws_charge_category : (String → String) → Option String → ChargeCategory
unfolding get
aws_charge_category key_of line_type =
    get_or (key_of (cell_or "Usage" line_type)) unknown aws_charge_types

-- the charge category of `parse_azure_cost_management`
unfoldable pub azure_charge_category : (String → String) → Option String → ChargeCategory
unfolding get
azure_charge_category lower charge_type =
    get_or (lower (cell_or "Usage" charge_type)) unknown azure_charge_types

-- `as_float`
unfoldable pub as_float : {Num : Type 0} → (String → Option Num) → Option String → Num → Num
as_float parse none default = default
as_float parse (some value) default =
    if value == "" then default else elim (parse value) [ none ↦ default | some amount ↦ amount ]

-- `_resource_name_from_id`
abbrev last_part : String → String → String
last_part separator text =
    if has_part separator text then after_last (len text) separator text else text

abbrev some_text : String → Option String
some_text text = if text == "" then none else some text

unfoldable pub resource_name_from_id : Option String → Option String
unfolding after_last
resource_name_from_id none = none
resource_name_from_id (some id) =
    if id == "" then none else some_text (last_part ":" (last_part "/" id))
