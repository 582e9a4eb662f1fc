-- ===== src/Session/Creation.antt =====
-- The constructors and the destructors of a session and of its parts, and `satipSessionCreate` of
-- manager.cpp: which file descriptors they open and close. What `pipe`, the driver and the sockets do
-- is an argument.
use mathlib.Core.List.{append-nil}
use satip_client.Base.{
  ℕ, ◌+◌, ◌≡◌, ◌≢◌, refl, sym, ap, ◌∙◌, Bool, true, false, ◌&&◌, ◌==◌, if◌then◌else◌, ◌⊎◌, inl, inr,
  Bool-cases, Option-cases, ==_iff, Option, none, some, List, [], ◌∷◌, ◌++◌, arith,
}
use satip_client.Config.State.{FeType}
use satip_client.Rtp.Ports.{Attempt, open_rtp}
use satip_client.Vtuner.Opening.{Driver, Build, Opening, allocate_vtuner, open_new}
use satip_client.Vtuner.Opening.Outcome.{IsOpened, open_new-IsOpened}

-- What the calls of the system give: the two ends of the pipe, the devices, the ports that are free,
-- and the RTP and the RTCP socket of the round of `openRTP` that finds two.
pub record Resources : Type 0 where
  pub pipe : Option (ℕ × ℕ)
  pub driver : Driver
  pub build : Build
  pub nodes : List (Option ℕ)
  pub attempts : ℕ → Attempt
  pub sockets : ℕ × ℕ

-- `m_rtp_socket` and `m_rtcp_socket` of a new `satipRTP`, and its `m_openok`; the sockets of the rounds
-- of `openRTP` that find a port taken are closed in their round and left out.
unfoldable pub new_rtp : Bool → Resources → Option (ℕ × ℕ) × Bool
unfolding open_rtp
new_rtp true env = (none, true)
new_rtp false env = elim (open_rtp env.attempts) [
  | none ↦ (none, false)
  | some port ↦ (some env.sockets, true)
]

-- The descriptors that a session holds: its pipe, its tuner and its sockets.
pub record Held : Type 0 where
  pub wakeup_pipe : Option (ℕ × ℕ)
  pub tuner : Opening
  pub rtp_sockets : Option (ℕ × ℕ)

-- `satipSession`, and `initok`.
unfoldable pub construct_session : Bool → Option FeType → Resources → Held × Bool
unfolding new_rtp open_new
construct_session tcp_data fe_type env =
    let (tuner, tuner_ok) = open_new env.driver env.build env.nodes fe_type in
    let (sockets, rtp_ok) = new_rtp tcp_data env in
    (record { wakeup_pipe = env.pipe; tuner = tuner; rtp_sockets = sockets }, tuner_ok && rtp_ok)

-- `~satipRTP` closes what is not 0; a socket that is not there is -1, which `close` refuses.
abbrev pub unless_zero : ℕ → List ℕ
unless_zero fd = if fd == 0 then [] else fd ∷ []

abbrev pub delete_rtp : Option (ℕ × ℕ) → List ℕ
delete_rtp none = []
delete_rtp (some (rtp, rtcp)) = unless_zero rtcp ++ unless_zero rtp

abbrev pub delete_vtuner : Option ℕ → List ℕ
delete_vtuner none = []
delete_vtuner (some fd) = fd ∷ []

abbrev pub close_pipe : Option (ℕ × ℕ) → List ℕ
close_pipe none = []
close_pipe (some (out, in_end)) = out ∷ in_end ∷ []

-- `~satipSession`: what it closes, with its parts.
unfoldable pub delete_session : Held → List ℕ
delete_session held =
    delete_rtp held.rtp_sockets ++ (delete_vtuner held.tuner.fd ++ close_pipe held.wakeup_pipe)

-- `satipSessionCreate`: whether the session is started, and what has been closed.
unfoldable pub create_session : Bool → Option FeType → Resources → Bool × List ℕ
unfolding construct_session delete_session
create_session tcp_data fe_type env =
    let (held, ok) = construct_session tcp_data fe_type env in
    if ok
    then (true, held.tuner.closed_fds)
    else (false, held.tuner.closed_fds ++ delete_session held)

-- The descriptors that are opened for a session.
abbrev pub opened_sockets : Option (ℕ × ℕ) → List ℕ
opened_sockets none = []
opened_sockets (some (rtp, rtcp)) = rtp ∷ rtcp ∷ []

unfoldable pub opened_for : Bool → Resources → List ℕ
unfolding new_rtp allocate_vtuner
opened_for tcp_data env =
    close_pipe env.pipe
    ++ (delete_vtuner (allocate_vtuner env.nodes) ++ opened_sockets (new_rtp tcp_data env).0)

-- How often a descriptor stands in a list.
abbrev pub times : ℕ → List ℕ → ℕ
times fd [] = 0
times fd (n ∷ ns) = (if n == fd then 1 else 0) + times fd ns

times-append : (fd : ℕ) (a b : List ℕ) → times fd (a ++ b) ≡ times fd a + times fd b
times-append fd [] b = omega arith
times-append fd (n ∷ a) b = omega (arith, times-append fd a b)

not_zero : (fd : ℕ) → fd ≢ 0 → unless_zero fd ≡ fd ∷ []
not_zero fd h = elim (Bool-cases (fd == 0)) [
  | inl e ↦ absurd (h ((==_iff fd 0).0 e))
  | inr e ↦ rw e refl
]

sockets_closed :
    (fd rtp rtcp : ℕ)
    → rtp ≢ 0
    → rtcp ≢ 0
    → times fd (unless_zero rtcp ++ unless_zero rtp) ≡ times fd (rtp ∷ rtcp ∷ [])
sockets_closed fd rtp rtcp h g = rw (not_zero rtp h, not_zero rtcp g) (omega arith)

-- `~satipRTP` closes the sockets that the constructor opened.
delete_rtp-new_rtp :
    (tcp_data : Bool) (env : Resources) (fd : ℕ)
    → env.sockets.0 ≢ 0
    → env.sockets.1 ≢ 0
    → times fd (delete_rtp (new_rtp tcp_data env).0)
      ≡ times fd (opened_sockets (new_rtp tcp_data env).0)
unfolding new_rtp
delete_rtp-new_rtp true env fd h g = refl
delete_rtp-new_rtp false env fd h g = elim (Option-cases (open_rtp env.attempts)) [
  | inl e ↦ rw (e, new_rtp) refl
  | inr (port, e) ↦ rw (e, new_rtp) (sockets_closed fd env.sockets.0 env.sockets.1 h g)
]

-- What is closed of the tuner, by `openVtuner` or by `~satipVtuner`.
tuner_closed :
    (found : Option ℕ) (r : Opening × Bool)
    → IsOpened found r
    → r.0.closed_fds ++ delete_vtuner r.0.fd ≡ delete_vtuner found
tuner_closed found (o, true) v =
    let (held, _, none_closed) = v.kept refl in rw (held, none_closed) refl
tuner_closed found (o, false) v =
    let (gone, closed) = v.given_up refl in rw (gone, closed) (append-nil _ ∙ same_list found)
  where
    same_list : (o : Option ℕ) → (elim o [ none ↦ [] | some fd ↦ fd ∷ [] ]) ≡ delete_vtuner o
    same_list none = refl
    same_list (some fd) = refl

and_left : (a b : Bool) → (a && b) ≡ true → a ≡ true
and_left a b h = ground (arith, h)

all_closed :
    (fd : ℕ) (rtp opened closed tuner found pipe : List ℕ)
    → times fd rtp ≡ times fd opened
    → closed ++ tuner ≡ found
    → times fd (closed ++ (rtp ++ (tuner ++ pipe))) ≡ times fd (pipe ++ (found ++ opened))
all_closed fd rtp opened closed tuner found pipe h e =
    let device : times fd closed + times fd tuner ≡ times fd found =
      sym (times-append fd closed tuner) ∙ ap (times fd) e in
    rw
      (
        times-append fd closed (rtp ++ (tuner ++ pipe)),
        times-append fd rtp (tuner ++ pipe),
        times-append fd tuner pipe,
        times-append fd pipe (found ++ opened),
        times-append fd found opened,
      )
      (omega (arith, h, device))

-- What `satipSessionCreate` closes, where no socket has the number 0 and besides the sockets of the
-- rounds of `openRTP` that find no two ports.
create_session_closes :
    (tcp_data : Bool) (fe_type : Option FeType) (env : Resources)
    → env.sockets.0 ≢ 0
    → env.sockets.1 ≢ 0
    → let (started, closed) = create_session tcp_data fe_type env in
      let opens = (open_new env.driver env.build env.nodes fe_type).1 && (new_rtp tcp_data env).1 in
      ((started ≡ true) × (opens ≡ true) × (closed ≡ []))
      ⊎ ((started ≡ false)
          × (opens ≡ false)
          × ((fd : ℕ) → times fd closed ≡ times fd (opened_for tcp_data env)))
unfolding create_session construct_session delete_session opened_for
create_session_closes tcp_data fe_type env h g =
    let found = open_new env.driver env.build env.nodes fe_type in
    let (tuner, tuner_ok) = found in
    let (sockets, rtp_ok) = new_rtp tcp_data env in
    let v = (open_new-IsOpened env.driver env.build env.nodes fe_type).1 in
    elim (Bool-cases (tuner_ok && rtp_ok)) [
      | inl e ↦ rw e (inl (refl, refl, (v.kept (and_left tuner_ok rtp_ok e)).2))
      | inr e ↦ rw e (
          inr (
            refl,
            refl,
            λ fd.
                all_closed fd (delete_rtp sockets) (opened_sockets sockets) tuner.closed_fds
                  (delete_vtuner tuner.fd) (delete_vtuner (allocate_vtuner env.nodes))
                  (close_pipe env.pipe) (delete_rtp-new_rtp tcp_data env fd h g)
                  (tuner_closed (allocate_vtuner env.nodes) found v),
          ))
    ]
