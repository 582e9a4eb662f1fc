-- ===== src/Options/Starts.antt =====
-- The sessions that `satipStart` starts.
use satip_client.Base.{
  ℕ, ◌≤◌, ◌≡◌, refl, subst, Bool, true, false, if◌then◌else◌, if-both, Option, none, some, List, [],
  ◌∷◌, arith, All, Bool-cases, inl, inr,
}
use satip_client.Base.Text.{Text, codes}
use satip_client.Base.Int.{ℤ}
use satip_client.Options.{
  NumberReaders, VtunerOpt, text_eq, is_no_text, is_available, Settings, load, SessionStart,
  session_start, start_all, satip_start,
}
use satip_client.Options.Valid.{
  IsFrontend, IsOpt, IsSettings, no_settings, more_settings, load-IsSettings,
}

-- What a session is started with: a host, a port and a front end.
pub record IsStart (s : SessionStart) : Type 0 where
  pub host : is_no_text s.host ≡ false
  pub port : is_no_text s.port ≡ false
  pub fe_type : (n : ℕ) × (s.fe_type ≡ some n) × (n ≤ 2)
  pub client : text_eq s.settings.vtuner_type (codes "satip_client") ≡ true

port_there : (port : Text) → is_no_text (if is_no_text port then codes "554" else port) ≡ false
port_there [] = refl
port_there (c ∷ port) = refl

front_end :
    (fe_type : Option ℕ)
    → IsFrontend fe_type
    → elim fe_type [ none ↦ false | some _ ↦ true ] ≡ true
    → (n : ℕ) × (fe_type ≡ some n) × (n ≤ 2)
front_end none v h = cc
front_end (some n) v h = (n, refl, v)

session_start-IsStart :
    (o : VtunerOpt) → IsOpt o → is_available o ≡ true → IsStart (session_start o)
unfolding session_start is_available
session_start-IsStart o v a = record {
  host = ground (arith, a);
  port = port_there o.port;
  fe_type = front_end o.fe_type v.fe_type (ground (arith, a));
  client = ground (arith, a);
}

start_all-IsStart :
    (ok : SessionStart → Bool) (b : Option ℤ) (m : Settings)
    → IsSettings b m
    → All IsStart (start_all ok m)
unfolding start_all
start_all-IsStart ok b _ no_settings = tt
start_all-IsStart ok b _ (more_settings k o m a v rest) =
    let others = start_all-IsStart ok (some k) m rest in
    elim (Bool-cases (is_available o)) [
      | inl e ↦ rw e (
          if-both (All IsStart) (ok (session_start o)) _ _ (session_start-IsStart o v e, others)
            others)
      | inr e ↦ rw e others
    ]

some_injective : {s t : List SessionStart} → some s ≡ some t → s ≡ t
some_injective h = cc

started-IsStart :
    (ok : SessionStart → Bool) (m : Settings) (starts : List SessionStart)
    → IsSettings none m
    → satip_start ok m ≡ some starts
    → All IsStart starts
unfolding satip_start
started-IsStart ok [] starts v e = cc
started-IsStart ok (s ∷ m) starts v e =
    subst (All IsStart) (some_injective e) (start_all-IsStart ok none (s ∷ m) v)

-- Whatever the configuration file holds, each session that is started from it has a host, a port and
-- one of the three front ends, and its settings are meant for this client.
pub satip_start-IsStart :
    (readers : NumberReaders) (ok : SessionStart → Bool) (file : Option Text)
    (starts : List SessionStart)
    → satip_start ok (load readers file) ≡ some starts
    → All IsStart starts
satip_start-IsStart readers ok file starts e =
    started-IsStart ok (load readers file) starts (load-IsSettings readers file) e
