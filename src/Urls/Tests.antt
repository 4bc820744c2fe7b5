-- ===== src/Urls/Tests.antt =====
-- A URL in the old form, and an import ID.
use terraform_provider_redpa.Base.{◌≡◌, refl, Text, codes, same, trim_suffix}

abbrev host : Text
host = codes "api-1.cluster.cloud"

no_port : trim_suffix host (codes ":443") ≡ host
unfolding trim_suffix same
no_port = refl
