-- ===== src/Rtsp/Connect.antt =====
-- `connectToServer`: the addresses of the host in turn, until one takes the connection. What the
-- resolver, `socket`, `fcntl` and `connect` do is an argument.
use satip_client.Base.{
  ℕ, ◌≡◌, refl, sym, ap, ◌∙◌, Bool, true, false, ◌&&◌, not, if◌then◌else◌, Option, none, some, List,
  [], ◌∷◌, ◌++◌, All,
}

-- What `connect` does on a socket that does not block: it connects, it is in progress, or it fails.
pub data Attempted : Type 0 where
  connected in_progress failed_connect : Attempted

-- An address: what `socket` gives, whether the socket can be made not to block, and `connect`.
pub record Address : Type 0 where
  pub socket : Option ℕ
  pub non_blocking : Bool
  pub attempted : Attempted

-- `connectToServer`: what it leaves in `m_fd`, if it returns `RTSP_OK`, and the sockets that it closed.
pub record Connection : Type 0 where
  pub fd : Option ℕ
  pub closed_fds : List ℕ

abbrev pub has_started : Attempted → Bool
has_started connected = true
has_started in_progress = true
has_started failed_connect = false

abbrev pub closing : ℕ → Connection → Connection
closing fd c = record c { closed_fds = fd ∷ c.closed_fds }

unfoldable pub connect_address : Address → Connection → Connection
connect_address a later = elim a.socket [
  | none ↦ later
  | some fd ↦
      if not a.non_blocking
      then closing fd later
      else if has_started a.attempted
      then record { fd = some fd; closed_fds = [] }
      else closing fd later
]

unfoldable pub connect_loop : List Address → Connection
unfolding connect_address
connect_loop [] = record { fd = none; closed_fds = [] }
connect_loop (a ∷ addresses) = connect_address a (connect_loop addresses)

-- `connectToServer`, with none for an error of `getaddrinfo`.
unfoldable pub connect_to_server : Option (List Address) → Connection
unfolding connect_loop
connect_to_server none = record { fd = none; closed_fds = [] }
connect_to_server (some addresses) = connect_loop addresses

-- An address that takes the connection.
abbrev pub is_usable : Address → Bool
is_usable a = elim a.socket [ none ↦ false | some fd ↦ a.non_blocking && has_started a.attempted ]

-- The sockets that are made for addresses.
abbrev pub made_for : Address → List ℕ
made_for a = elim a.socket [ none ↦ [] | some fd ↦ fd ∷ [] ]

abbrev pub sockets : List Address → List ℕ
sockets [] = []
sockets (a ∷ addresses) = made_for a ++ sockets addresses

abbrev pub NoneUsable : List Address → Type 0
NoneUsable = All (λ a. is_usable a ≡ false)

-- What the addresses make of a connection.
pub record IsConnection (addresses : List Address) (c : Connection) : Type 0 where
  pub taken :
      (fd : ℕ)
      → c.fd ≡ some fd
      → (before : List Address) × (a : Address) × (after : List Address) × (addresses
          ≡ before ++ a ∷ after)
        × NoneUsable before
        × (is_usable a ≡ true)
        × (a.socket ≡ some fd)
        × (c.closed_fds ≡ sockets before)
  pub refused : c.fd ≡ none → NoneUsable addresses × (c.closed_fds ≡ sockets addresses)

-- An address that does not take the connection is left for the later ones, without its socket.
later-IsConnection :
    (a : Address) (addresses : List Address) (c c' : Connection)
    → is_usable a ≡ false
    → c'.fd ≡ c.fd
    → c'.closed_fds ≡ made_for a ++ c.closed_fds
    → IsConnection addresses c
    → IsConnection (a ∷ addresses) c'
later-IsConnection a addresses c c' u f l v = record {
  taken = λ fd h.
      let (before, b, after, split, unusable, usable, made, closed) = v.taken fd (sym f ∙ h) in
      (
        a ∷ before,
        b,
        after,
        ap (λ l. a ∷ l) split,
        (u, unusable),
        usable,
        made,
        l ∙ ap (λ l. made_for a ++ l) closed,
      );
  refused = λ h.
      let (unusable, closed) = v.refused (sym f ∙ h) in
      ((u, unusable), l ∙ ap (λ l. made_for a ++ l) closed);
}

connect_address-IsConnection :
    (socket : Option ℕ) (non_blocking : Bool) (attempted : Attempted) (addresses : List Address)
    (c : Connection)
    → IsConnection addresses c
    → let a : Address = record {
      socket = socket;
      non_blocking = non_blocking;
      attempted = attempted;
    } in
      IsConnection (a ∷ addresses) (connect_address a c)
unfolding connect_address
connect_address-IsConnection none b t addresses c v =
    later-IsConnection _ addresses c c refl refl refl v
connect_address-IsConnection (some fd) false t addresses c v =
    later-IsConnection _ addresses c _ refl refl refl v
connect_address-IsConnection (some fd) true failed_connect addresses c v =
    later-IsConnection _ addresses c _ refl refl refl v
connect_address-IsConnection (some fd) true connected addresses c v = record {
  taken = λ n h. ([], _, addresses, refl, tt, refl, h, refl);
  refused = λ h. absurd (cc);
}
connect_address-IsConnection (some fd) true in_progress addresses c v = record {
  taken = λ n h. ([], _, addresses, refl, tt, refl, h, refl);
  refused = λ h. absurd (cc);
}

connect_loop-IsConnection :
    (addresses : List Address) → IsConnection addresses (connect_loop addresses)
unfolding connect_loop
connect_loop-IsConnection [] = record { taken = λ fd h. absurd (cc); refused = λ h. (tt, refl) }
connect_loop-IsConnection (a ∷ addresses) =
    connect_address-IsConnection a.socket a.non_blocking a.attempted addresses
      (connect_loop addresses) (connect_loop-IsConnection addresses)

-- `connectToServer` takes the first address whose socket connects or starts to, and closes the socket
-- of every address before it; if no address does, it fails and has closed every socket it made. So
-- no socket but that of the connection stays open.
pub connect_to_server-IsConnection :
    (addresses : List Address) → IsConnection addresses (connect_to_server (some addresses))
unfolding connect_to_server
connect_to_server-IsConnection addresses = connect_loop-IsConnection addresses
