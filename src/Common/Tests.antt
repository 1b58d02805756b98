-- ===== src/Common/Tests.antt =====
-- Runs and instances for src/primihub/common/common.h and src/primihub/util/util.cc.
use primihub.Prelude.{◌≡◌, refl, true, codes}
use primihub.Common.{Node, to_string}
use primihub.Common.Decimal.{print}

abbrev sample : Node
sample = record {
  id = codes "n0";
  ip = codes "1.2";
  port = 50;
  use_tls = true;
  role = codes "default";
}

sample_text : to_string sample ≡ codes "n0:1.2:50:1:default"
unfolding to_string print
sample_text = refl
