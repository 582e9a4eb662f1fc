-- ===== src/Vtuner/Properties.antt =====
-- What a sequence of property messages leaves behind: the generation of the tuning and its status.
use satip_client.Base.{
  ℕ, ◌+◌, ◌%◌, ◌^◌, ◌<◌, ◌≡◌, refl, if◌then◌else◌, List, [], ◌∷◌, arith, leb, ◌==◌, if-both,
}
use satip_client.Config.Header.{FrontendHeader}
use satip_client.Config.State.{
  Config, ChannelStatus, channel_changed, set_channel_changed, clear_property, clear_members,
}
use satip_client.Config.Frame.{with_psi-SameTuning}
use satip_client.Psi.Recompute.{reset}
use satip_client.Vtuner.{
  DtvCommand, DtvProperty, Vtuner, apply_command, set_property, dtv_tune, dtv_clear, dtv_inner_fec,
}

-- How many of the commands tune.
unfoldable pub is_tune : DtvCommand → ℕ
is_tune dtv_tune = 1
is_tune _ = 0

unfoldable pub tune_count : List DtvProperty → ℕ
unfolding is_tune
tune_count [] = 0
tune_count (p ∷ ps) = is_tune p.cmd + tune_count ps

-- The generation and the status after `n` tunings.
unfoldable pub status_after : ℕ → ChannelStatus → ChannelStatus
status_after n status = if n == 0 then status else channel_changed

pub record TunedBy (n : ℕ) (c c' : Config) : Type 0 where
  pub generation : c'.tune_generation ≡ (c.tune_generation + n) % 2 ^ 64
  pub status : c'.status ≡ status_after n c.status

not_tuned :
    (c c' : Config)
    → c.tune_generation < 2 ^ 64
    → c'.tune_generation ≡ c.tune_generation
    → c'.status ≡ c.status
    → TunedBy 0 c c'
not_tuned c c' v g s = record { generation = ground arith; status = unfold status_after in s }

TunedBy-trans : (m n : ℕ) (a b c : Config) → TunedBy m a b → TunedBy n b c → TunedBy (m + n) a c
TunedBy-trans m n a b c p q = record {
  generation = grind (arith, p.generation, q.generation);
  status = unfold status_after in ground (arith, p.status, q.status);
}

clear_property-keeps :
    (k : FrontendHeader) (c : Config)
    → ((clear_property k c).tune_generation ≡ c.tune_generation)
      × ((clear_property k c).status ≡ c.status)
unfolding clear_property
clear_property-keeps k c =
    let same = with_psi-SameTuning reset (clear_members k c) in (same.generation, same.status)

module _ (k : FrontendHeader) where
  unfoldable pub set_all : List DtvProperty → Vtuner → Vtuner
  unfolding set_property
  set_all [] v = v
  set_all (p ∷ ps) v = set_all ps (set_property k p v)

  apply_command-TunedBy :
      (cmd : DtvCommand) (tone value : ℕ) (c : Config)
      → c.tune_generation < 2 ^ 64
      → TunedBy (is_tune cmd) c (apply_command k cmd tone value c)
  unfolding apply_command is_tune set_channel_changed
  apply_command-TunedBy dtv_tune tone value c v = record {
    generation = refl;
    status = unfold status_after in refl;
  }
  apply_command-TunedBy dtv_clear tone value c v =
      let same = clear_property-keeps k c in not_tuned c (clear_property k c) v same.0 same.1
  apply_command-TunedBy dtv_inner_fec tone value c v =
      if-both (TunedBy 0 c) (leb (value % 32) k.fec_9_10) _ _ (not_tuned c _ v refl refl)
        (not_tuned c c v refl refl)
  apply_command-TunedBy _ tone value c v = not_tuned c _ v refl refl

  -- Whatever properties the kernel sets, in any order and with any values, the generation of the
  -- tuning moves on by the number of `DTV_TUNE` among them, modulo 2^64, and the channel counts as
  -- changed exactly if there was one: else its status is the one before.
  pub set_all-counts_tunes :
      (ps : List DtvProperty) (v : Vtuner)
      → v.config.tune_generation < 2 ^ 64
      → TunedBy (tune_count ps) v.config (set_all ps v).config
  unfolding set_all set_property tune_count
  set_all-counts_tunes [] v h = not_tuned v.config v.config h refl refl
  set_all-counts_tunes (p ∷ ps) v h =
      let first = apply_command-TunedBy p.cmd v.tone p.value v.config h in
      let bound : (set_property k p v).config.tune_generation < 2 ^ 64 =
        grind (arith, first.generation) in
      TunedBy-trans (is_tune p.cmd) (tune_count ps) v.config (set_property k p v).config _ first
        (set_all-counts_tunes ps (set_property k p v) bound)
