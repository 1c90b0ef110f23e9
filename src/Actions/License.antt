-- ===== src/Actions/License.antt =====
-- `License` and `From<Action> for License`.
pub mod Fields
use ips.Base.{String, List, [], foldl, not, if◌then◌else◌}
use ips.Base.Outcome.{Outcome, ok}
use ips.Base.Table.{Table, insert}
use ips.Base.Text.{is_empty_str}
use ips.Actions.Action.{Property, Action}

pub record License : Type 0 where
  pub payload : String
  pub properties : Table Property

-- `License::default()`.
abbrev pub default : License
default = record { payload = ""; properties = [] }

-- The body of the loop over the properties.
unfoldable pub set_property : License → Property → License
set_property license prop = record license { properties = insert prop.key prop license.properties }

-- The license before that loop.
abbrev pub with_payload : String → License
with_payload text = if not (is_empty_str text) then record default { payload = text } else default

-- `License::from`.
unfoldable pub from_action : Action → Outcome ⊥ License
from_action act = ok (foldl set_property (with_payload act.payload_string) act.properties)
