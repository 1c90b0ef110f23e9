-- ===== src/Actions/Link.antt =====
-- `Link` and `From<Action> for Link`.
pub mod Fields
use ips.Base.{String, [], foldl, ◌==◌, if◌then◌else◌}
use ips.Base.Outcome.{Outcome, ok, ◌>>=◌}
use ips.Base.Table.{Table, insert}
use ips.Actions.Action.{Property, Action, properties_with_payload}

pub record Link : Type 0 where
  pub path : String
  pub target : String
  pub properties : Table Property

-- `Link::default()`.
abbrev pub default : Link
default = record { path = ""; target = ""; properties = [] }

-- The `match` on a property's key.
unfoldable pub set_property : Link → Property → Link
set_property link prop =
    if prop.key == "path"
    then record link { path = prop.value }
    else if prop.key == "target"
    then record link { target = prop.value }
    else record link { properties = insert prop.key prop link.properties }

-- `Link::from`.
unfoldable pub from_action : Action → Outcome ⊥ Link
from_action act = do props ← properties_with_payload act; ok (foldl set_property default props)
