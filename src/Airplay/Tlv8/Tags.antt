-- ===== src/Airplay/Tlv8/Tags.antt =====
-- crates/openplay-airplay/src/tlv8.rs: the types of the items, and the codes of methods and errors.
use openplay.Prelude.{ℕ}

abbrev pub tag_method : ℕ
tag_method = 0x00

abbrev pub tag_identifier : ℕ
tag_identifier = 0x01

abbrev pub tag_salt : ℕ
tag_salt = 0x02

abbrev pub tag_public_key : ℕ
tag_public_key = 0x03

abbrev pub tag_proof : ℕ
tag_proof = 0x04

abbrev pub tag_encrypted_data : ℕ
tag_encrypted_data = 0x05

abbrev pub tag_state : ℕ
tag_state = 0x06

abbrev pub tag_error : ℕ
tag_error = 0x07

abbrev pub tag_retry_delay : ℕ
tag_retry_delay = 0x08

abbrev pub tag_signature : ℕ
tag_signature = 0x0a

abbrev pub tag_flags : ℕ
tag_flags = 0x13

abbrev pub method_pair_setup : ℕ
method_pair_setup = 0x00

abbrev pub error_none : ℕ
error_none = 0x00

abbrev pub error_unknown : ℕ
error_unknown = 0x01

abbrev pub error_authentication : ℕ
error_authentication = 0x02

abbrev pub error_backoff : ℕ
error_backoff = 0x03

abbrev pub error_max_peers : ℕ
error_max_peers = 0x04

abbrev pub error_max_tries : ℕ
error_max_tries = 0x05

abbrev pub error_unavailable : ℕ
error_unavailable = 0x06

abbrev pub error_busy : ℕ
error_busy = 0x07
