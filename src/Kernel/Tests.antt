-- ===== src/Kernel/Tests.antt =====
-- Runs of the authority checks on a small configuration.
use equill.Base.{
  String, ◌≡◌, refl, ◌↔◌, ◌⊎◌, true, false, ◌&&◌, none, some, [], ◌∷◌, any, string_eq, any_char,
  is_blank, all,
}
use equill.Kernel.Error.{permission_denied, ok, err}
use equill.Samples.{text}
use equill.Kernel.Identity.{
  WriteGrant, StoreConfig, WriteTarget, valid, broad, require_record_writer,
}
use equill.Kernel.Authority.{require_record_writer_iff, is_reader, Covering}

abbrev grant : String → String → WriteGrant String
grant actor namespace = record {
  actors = actor ∷ [];
  namespace = namespace;
  types = "note" ∷ [];
  payload_equals = [];
}

-- the owner itself is held to reading, and "scribe" has one grant for each of two namespaces
abbrev config : StoreConfig String
config = record {
  format_version = 1;
  root_owner = "owner";
  namespaces = "left" ∷ "right" ∷ [];
  writers = "*" ∷ [];
  read_only = "owner" ∷ [];
  write_grants = grant "scribe" "left" ∷ grant "scribe" "right" ∷ [];
  created_at_unix_ms = 1;
  default_context_profile = none;
  extra = [];
}

abbrev closed : StoreConfig String
closed = record config { writers = [] }

abbrev target : String → WriteTarget String
target namespace = record { namespace = namespace; type_name = "note"; payload = "" }

-- Two grants do not add up to a replacement across namespaces.
crossing :
    require_record_writer text closed "scribe" (target "left") (some (target "right"))
    ≡ err permission_denied
unfolding require_record_writer any valid is_blank any_char all
crossing = refl

require_record_writer_iff_example :
    (require_record_writer text closed "scribe" (target "left") (some (target "left")) ≡ ok tt) ↔ (
      (is_reader text closed "scribe" ≡ false)
      × (((valid "scribe" && broad text closed "scribe") ≡ true)
          ⊎ Covering text closed "scribe" (target "left") (some (target "left"))))
require_record_writer_iff_example =
    require_record_writer_iff text closed "scribe" (target "left") (some (target "left"))
