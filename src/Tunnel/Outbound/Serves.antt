-- ===== src/Tunnel/Outbound/Serves.antt =====
-- What the other end serves for the channel that a proxy opens for a remote: share/tunnel/tunnel_in_proxy.go
-- and tunnel_in_proxy_udp.go with tunnel_out_ssh.go.
use mathlib.Core.List.{map-append}
use chisel_uds.Prelude.{
  ℕ, ◌+◌, ◌-◌, ◌%◌, ◌^◌, ◌<◌, Text, codes, Bool, true, false, not, ◌&&◌, Option, none, some, [],
  ◌∷◌, ◌++◌, ◌≡◌, ◌⊎◌, refl, arith, text_eq, text_eq_iff, has_byte, to_lower, if◌then◌else◌, inl,
  inr, Bool-cases, ap, sym, subst, ◌∙◌,
}
use chisel_uds.Prelude.Strings.Laws.{has_byte-append}
use chisel_uds.Settings.Remote.Types.{Remote, or_default}
use chisel_uds.Settings.Remote.Print.{remote}
use chisel_uds.Settings.Remote.Tokens.{l4_proto}
use chisel_uds.Settings.Remote.Tokens.Laws.{l4_proto_none, l4_proto_udp_lower}
use chisel_uds.Tunnel.Proxy.{
  Runner, stdio_runner, pair_runner, unix_runner, tcp_runner, udp_runner, dispatch,
}
use chisel_uds.Tunnel.Outbound.{
  ConnCount, new_conn, open_conn, close_conn, Service, socks_service, udp_service, tcp_service,
  ChannelEnd, rejected, not_accepted, served, service_for, handle_ssh_channel,
}

abbrev runs_udp : Option Runner → Bool
runs_udp none = false
runs_udp (some stdio_runner) = false
runs_udp (some pair_runner) = false
runs_udp (some unix_runner) = false
runs_udp (some tcp_runner) = false
runs_udp (some udp_runner) = true

-- whether the proxy of a remote runs on UDP
abbrev pub is_udp : Remote → Bool
is_udp r = runs_udp (dispatch r)

-- The data with which a proxy opens a channel: `openRemoteStream` gives the remote, and `getUDPChan` marks it
-- as UDP.
unfoldable pub extra_data : Remote → Text
extra_data r = if is_udp r then remote r ++ codes "/udp" else remote r

-- the host and port that a remote names
abbrev pub target : Remote → Text
target r = or_default r.remote_host (codes "127.0.0.1") ++ b':' ∷ r.remote_port

-- What a remote asks the other end for: SOCKS, or its host and port over UDP, in lower case, or over TCP
abbrev pub wanted : Remote → Service
wanted r =
    if r.socks
    then socks_service
    else if is_udp r
    then udp_service (to_lower (target r))
    else tcp_service (target r)

apart : true ≡ false → ⊥
apart h = cc

not_socks : (h p : Text) → text_eq (h ++ b':' ∷ p) (codes "socks") ≡ false
unfolding has_byte
not_socks h p = elim (Bool-cases (text_eq (h ++ b':' ∷ p) (codes "socks"))) [
  | inr e ↦ e
  | inl e ↦ absurd (
      apart (
        sym (ground (arith, has_byte-append h (b':' ∷ p) b':'))
        ∙ ap (λ s. has_byte s b':') ((text_eq_iff (h ++ b':' ∷ p) (codes "socks")).0 e)))
]

remote-socks : (r : Remote) → r.socks ≡ true → remote r ≡ codes "socks"
unfolding remote
remote-socks r h = ground arith

remote-host :
    (r : Remote)
    → r.socks ≡ false
    → remote r ≡ or_default r.remote_host (codes "127.0.0.1") ++ b':' ∷ r.remote_port
unfolding remote
remote-host r h = ground arith

no_slash :
    (h p : Text)
    → has_byte h b'/' ≡ false
    → has_byte p b'/' ≡ false
    → has_byte (h ++ b':' ∷ p) b'/' ≡ false
unfolding has_byte
no_slash h p a b = ground (arith, has_byte-append h (b':' ∷ p) b'/')

l4_proto-socks : l4_proto (codes "socks") ≡ (codes "socks", [])
unfolding has_byte
l4_proto-socks = l4_proto_none (codes "socks") refl

-- What the other end reads from the data of a channel.
record Reads (r : Remote) (extra : Text) : Type 0 where
  host : Text
  proto : Text
  split : l4_proto extra ≡ (host, proto)
  is_socks : text_eq host (codes "socks") ≡ r.socks
  serves : service_for host proto ≡ wanted r

socks-Reads : (r : Remote) → r.socks ≡ true → Reads r (extra_data r)
unfolding extra_data text_eq
socks-Reads r s = elim (Bool-cases (is_udp r)) [
  | inl u ↦ record {
    host = codes "socks";
    proto = codes "udp";
    split =
        rw (extra_data, u)
          (ap (λ t. l4_proto (t ++ codes "/udp")) (remote-socks r s)
            ∙ l4_proto_udp_lower (codes "socks"));
    is_socks = sym s;
    serves = ground arith;
  }
  | inr u ↦ record {
    host = codes "socks";
    proto = [];
    split = rw (extra_data, u) (ap l4_proto (remote-socks r s) ∙ l4_proto-socks);
    is_socks = sym s;
    serves = ground arith;
  }
]

-- The target in lower case is not the name of SOCKS either.
not_socks_lower : (r : Remote) → text_eq (to_lower (target r)) (codes "socks") ≡ false
not_socks_lower r =
    rw (map-append)
      (not_socks (to_lower (or_default r.remote_host (codes "127.0.0.1"))) (to_lower r.remote_port))

host-Reads :
    (r : Remote) → r.socks ≡ false → has_byte (target r) b'/' ≡ false → Reads r (extra_data r)
unfolding extra_data text_eq
host-Reads r s h = elim (Bool-cases (is_udp r)) [
  | inl u ↦
      let n = not_socks_lower r in
      record {
        host = to_lower (target r);
        proto = codes "udp";
        split =
            rw (extra_data, u)
              (ap (λ t. l4_proto (t ++ codes "/udp")) (remote-host r s)
                ∙ l4_proto_udp_lower (target r));
        is_socks = n ∙ sym s;
        serves = rw (n, u, s) refl;
      }
  | inr u ↦
      let n = not_socks (or_default r.remote_host (codes "127.0.0.1")) r.remote_port in
      record {
        host = target r;
        proto = [];
        split = rw (extra_data, u) (ap l4_proto (remote-host r s) ∙ l4_proto_none (target r) h);
        is_socks = n ∙ sym s;
        serves = rw (n, u, s) refl;
      }
]

-- the end of a channel, by whether it lacks a SOCKS server and by the service that is asked for
ended : Bool → Bool → Option Text → Service → ConnCount → ConnCount × ChannelEnd
ended false lacks accept_error w c = (c, rejected (codes "Denied outbound connection"))
ended true true accept_error w c = (c, rejected (codes "SOCKS5 is not enabled"))
ended true false (some e) w c = (c, not_accepted e)
ended true false none w c = (close_conn (open_conn (new_conn c)), served w)

handle_ssh_channel-ended :
    (outbound socks : Bool) (accept_error : Option Text) (extra host proto : Text) (c : ConnCount)
    (lacks : Bool)
    → l4_proto extra ≡ (host, proto)
    → (text_eq host (codes "socks") && not socks) ≡ lacks
    → handle_ssh_channel outbound socks accept_error extra c
      ≡ ended outbound lacks accept_error (service_for host proto) c
unfolding handle_ssh_channel ended
handle_ssh_channel-ended false socks a extra host proto c lacks q l = refl
handle_ssh_channel-ended true socks a extra host proto c true q l =
    rw (handle_ssh_channel, q, l) refl
handle_ssh_channel-ended true socks none extra host proto c false q l =
    rw (handle_ssh_channel, q, l) refl
handle_ssh_channel-ended true socks (some e) extra host proto c false q l =
    rw (handle_ssh_channel, q, l) refl

open_now-restored : (n : ℕ) → n < 2 ^ 32 → ((n + 1) % 2 ^ 32 + (2 ^ 32 - 1)) % 2 ^ 32 ≡ n
open_now-restored n h = omega arith

-- What each end of a channel for a remote shows, with the counts behind it.
pub Ends : Bool → Bool → Option Text → Remote → ConnCount → ConnCount × ChannelEnd → Type 0
Ends outbound socks accept_error r c (c', rejected e) =
    (c' ≡ c) × ((outbound ≡ false) ⊎ ((outbound ≡ true) × (r.socks ≡ true) × (socks ≡ false)))
Ends outbound socks accept_error r c (c', not_accepted e) =
    (c' ≡ c) × (outbound ≡ true) × ((r.socks && not socks) ≡ false) × (accept_error ≡ some e)
Ends outbound socks accept_error r c (c', served w) =
    (w ≡ wanted r)
    × (outbound ≡ true)
    × ((r.socks && not socks) ≡ false)
    × (accept_error ≡ none)
    × (c'.open_now ≡ c.open_now)
    × (c'.count ≡ (c.count + 1) % 2 ^ 32)

ended-Ends :
    (outbound socks : Bool) (accept_error : Option Text) (r : Remote) (c : ConnCount) (lacks : Bool)
    → (r.socks && not socks) ≡ lacks
    → c.open_now < 2 ^ 32
    → Ends outbound socks accept_error r c (ended outbound lacks accept_error (wanted r) c)
unfolding Ends ended
ended-Ends false socks a r c lacks l o = (refl, inl refl)
ended-Ends true socks a r c true l o = (refl, inr (refl, ground arith, ground arith))
ended-Ends true socks (some e) r c false l o = (refl, refl, l, refl)
ended-Ends true socks none r c false l o =
    (refl, refl, l, refl, open_now-restored c.open_now o, refl)

-- A channel that the proxy of a remote opens, on UDP or not, is rejected exactly if the other end allows no
-- outbound connections, or the remote is for SOCKS and the other end has no SOCKS server; it ends without a
-- service if it is then not accepted; and otherwise it is served as the remote asks: SOCKS, or its host and
-- port over UDP or TCP. One more connection is counted exactly if it is served, and as many are open
-- afterwards as before. The remote's host and port have no slash.
pub handle_ssh_channel-remote :
    (outbound socks : Bool) (accept_error : Option Text) (r : Remote) (c : ConnCount)
    → has_byte (or_default r.remote_host (codes "127.0.0.1")) b'/' ≡ false
    → has_byte r.remote_port b'/' ≡ false
    → c.open_now < 2 ^ 32
    → Ends outbound socks accept_error r c
        (handle_ssh_channel outbound socks accept_error (extra_data r) c)
handle_ssh_channel-remote outbound socks a r c h p o =
    let d : Reads r (extra_data r) = elim (Bool-cases r.socks) [
      | inl s ↦ socks-Reads r s
      | inr s ↦
          host-Reads r s (no_slash (or_default r.remote_host (codes "127.0.0.1")) r.remote_port h p)
    ] in
    subst (Ends outbound socks a r c)
      (sym (
        handle_ssh_channel-ended outbound socks a (extra_data r) d.host d.proto c
          (r.socks && not socks) d.split (ap (λ b. b && not socks) d.is_socks)
        ∙ ap (λ w. ended outbound (r.socks && not socks) a w c) d.serves))
      (ended-Ends outbound socks a r c (r.socks && not socks) refl o)
