-- ===== src/Stun/Addresses.antt =====
-- stun.rs and punch.rs compare socket addresses: the test is equality.
use p2pfile_transfer.Common.{
  ◌≡◌, refl, ap, ◌∙◌, Bool, true, ◌==◌, ◌&&◌, arith, bytes_eq→eq, bytes_eq_refl,
}
use p2pfile_transfer.Stun.{SocketAddr, IpAddr, v4, v6, same_ip, same_addr}

pub same_addr_refl : (a : SocketAddr) → same_addr a a ≡ true
unfolding same_addr same_ip
same_addr_refl a = by_ip a.ip refl
  where
    by_ip : (i : IpAddr) → a.ip ≡ i → same_addr a a ≡ true
    by_ip (v4 o) e = rw (e, bytes_eq_refl o) (ground arith)
    by_ip (v6 o) e = rw (e, bytes_eq_refl o) (ground arith)

same_ip→eq : (a b : IpAddr) → same_ip a b ≡ true → a ≡ b
unfolding same_ip
same_ip→eq (v4 a) (v4 b) e = ap v4 (bytes_eq→eq a b e)
same_ip→eq (v6 a) (v6 b) e = ap v6 (bytes_eq→eq a b e)
same_ip→eq (v4 a) (v6 b) e = cc
same_ip→eq (v6 a) (v4 b) e = cc

both : (x y : Bool) → (x && y) ≡ true → (x ≡ true) × (y ≡ true)
both x y e = (ground (arith, e), ground (arith, e))

pub same_addr→eq : (a b : SocketAddr) → same_addr a b ≡ true → a ≡ b
unfolding same_addr
same_addr→eq a b e =
    let (ips, ports) = both (same_ip a.ip b.ip) (a.port == b.port) e in
    let ip = same_ip→eq a.ip b.ip ips in
    let port : a.port ≡ b.port = ground (arith, ports) in
    ap (λ i. record { ip = i; port = a.port }) ip ∙ ap (λ p. record { ip = b.ip; port = p }) port
