-- ===== src/Actions/Attr.antt =====
-- `Attr` and `From<Action> for Attr`.
pub mod Fields
use ips.Base.{String, List, [], ◌∷◌, ◌++◌, foldl, ◌==◌, if◌then◌else◌}
use ips.Base.Outcome.{Outcome, ok, ◌>>=◌}
use ips.Base.Table.{Table, insert}
use ips.Actions.Action.{Property, Action, properties_with_payload}

pub record Attr : Type 0 where
  pub key : String
  pub values : List String
  pub properties : Table Property

-- `Attr::default()`.
abbrev pub default : Attr
default = record { key = ""; values = []; properties = [] }

-- The `match` on a property's key.
unfoldable pub set_property : Attr → Property → Attr
set_property attr prop =
    if prop.key == "name"
    then record attr { key = prop.value }
    else if prop.key == "value"
    then record attr { values = attr.values ++ prop.value ∷ [] }
    else record attr { properties = insert prop.key prop attr.properties }

-- `Attr::from`.
unfoldable pub from_action : Action → Outcome ⊥ Attr
from_action act = do props ← properties_with_payload act; ok (foldl set_property default props)
