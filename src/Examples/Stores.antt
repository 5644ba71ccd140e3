-- ===== src/Examples/Stores.antt =====
-- Decoders, comments and sizes.
use ra_backend.Base.{arith, none, some, [], ◌∷◌, ◌≡◌, refl}
use ra_backend.Base.Decimal.{str}
use ra_backend.Models.{Case, Decoder}
use ra_backend.Core.Exec.{Tx}
use ra_backend.Operations.Service.{DecoderUpsert}
use ra_backend.Reporting.Sizes.{format_bytes, IsShown, format_bytes-IsShown}
use ra_backend.Examples.{db_with, state_of}

abbrev a_decoder : Decoder
a_decoder = record {
  id = "DEC-1";
  name = "ASN.1";
  version = "1.0";
  status = "Enabled";
  throughput = none;
  config = "{1}";
}

abbrev another_decoder : Decoder
another_decoder = record a_decoder { id = "DEC-2" }

abbrev decoder_state : Tx
decoder_state = state_of (record (db_with []) { decoders = a_decoder ∷ another_decoder ∷ [] })

abbrev an_upsert : DecoderUpsert
an_upsert = record {
  id = "DEC-2";
  name = "JSON";
  version = "2.0";
  status = "Disabled";
  throughput = some "28k/s";
  config = none;
}

abbrev pub a_case : Case
a_case = record {
  id = "c1";
  reference = "CASE-2001";
  title = "Leakage";
  description = "";
  severity = "high";
  status = "Open";
  owner = none;
  owner_id = none;
  linked_txn_id = none;
  estimated_impact = none;
  updated_at = 0;
}

abbrev pub case_state : Tx
case_state = state_of (record (db_with []) { cases = a_case ∷ [] })

format_bytes-IsShown_example : IsShown 1536
format_bytes-IsShown_example = format_bytes-IsShown 1536 (omega arith) (omega arith)

test_format_bytes : format_bytes (some 1536) ≡ "1.5 KB"
unfolding format_bytes str
test_format_bytes = refl

-- From 2^53 on the size is rounded before it is divided.
test_rounded_size : format_bytes (some 9007254230322381) ≡ "8192.0 TB"
unfolding format_bytes str
test_rounded_size = refl
