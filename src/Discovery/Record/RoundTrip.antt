-- ===== src/Discovery/Record/RoundTrip.antt =====
-- A record that a receiver advertises is read back (crates/openplay-discovery/src/record.rs).
use openplay.Config.{default_port}
use openplay.Prelude.Strings.{or_else}
use openplay.Prelude.{some, text_eq, ◌<◌, ◌^◌, ◌≡◌, ap, ◌-◌, arith, ◌∙◌}
use openplay.Discovery.Record.{TxtRecord, to_properties, from_properties, record_of, get}
use openplay.Prelude.Decimal.{parse_number-decimal}

-- What is advertised is read back by a sender, if the version and the frame rate fit 32 bits and the
-- port 16, whatever the texts are.
pub from_properties-to_properties :
    (r : TxtRecord)
    → r.version < 2 ^ 32
    → r.max_fps < 2 ^ 32
    → r.port < 2 ^ 16
    → from_properties (to_properties r) ≡ some r
unfolding from_properties to_properties record_of get text_eq
from_properties-to_properties r version fps port =
    ap (λ v. record_of (to_properties r) v (some r.display_name))
      (parse_number-decimal (2 ^ 32 - 1) r.version (omega arith))
    ∙ (λ i. some (record r {
      max_fps = or_else (parse_number-decimal (2 ^ 32 - 1) r.max_fps (omega arith) i) 30;
      port = or_else (parse_number-decimal (2 ^ 16 - 1) r.port (omega arith) i) default_port;
    }))
