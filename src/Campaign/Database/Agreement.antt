-- ===== src/Campaign/Database/Agreement.antt =====
-- src/scam2market/campaigns/repository.py: `apply` of both stores.
use scam2marke.Prelude.Dict.{string_eq, pair_eq}
use scam2marke.Campaign.Memory.{alert_type_eq}
use scam2marke.Campaign.Database.{Database}
