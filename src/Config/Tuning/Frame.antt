-- ===== src/Config/Tuning/Frame.antt =====
-- `getTuningData` changes no member but `m_pilot`.
use satip_client.Base.{◌≡◌, refl}
use satip_client.Config.Header.{FrontendHeader}
use satip_client.Config.State.{Config, FeType, sat, cable, terrestrial}
use satip_client.Config.Tuning.{tuning_data, frontend_data, sat_data}

module _ (k : FrontendHeader) where
  frontend_data_frame :
      (t : FeType) (c : Config)
      → (frontend_data k t c).0 ≡ record c { pilot = (frontend_data k t c).0.pilot }
  unfolding frontend_data sat_data
  frontend_data_frame sat c = refl
  frontend_data_frame cable c = refl
  frontend_data_frame terrestrial c = refl

  pub tuning_data_frame :
      (c : Config) → (tuning_data k c).0 ≡ record c { pilot = (tuning_data k c).0.pilot }
  unfolding tuning_data
  tuning_data_frame c = frontend_data_frame c.fe_type c
