-- ===== src/Ids/Tests.antt =====
-- An identifier, and the injectivity theorem at two counters.
use tux_bridge.Prelude.{ℕ, ◌≡◌, refl, codes, arith}
use tux_bridge.Ids.{format_id}
use tux_bridge.Ids.Distinct.{format_id_inj}

padded : format_id "tb-" 255 ≡ codes "tb-00000000000000ff"
unfolding format_id
padded = refl

format_id_inj_example : ◌≡◌ {A = ℕ} 255 255
format_id_inj_example = format_id_inj "tb-" 255 255 (omega arith) (omega arith) refl
