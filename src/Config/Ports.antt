-- ===== src/Config/Ports.antt =====
-- What holds of settings that have been validated: the numbers.
use focus_vision_pcvr.Prelude.{ℕ, ◌%◌, ◌^◌, ◌≤◌, ◌<◌, ◌≡◌, ◌≢◌, ◌||◌, arith, ltb, ◌==◌, if_either}
use focus_vision_pcvr.Config.Check.{
  Field, Checked, validate_range, check_low, check_high, check_apart, check_ports, max_udp,
}
use focus_vision_pcvr.Config.Validate.{check_even, check_size}

abbrev pub IsIn : ℕ → ℕ → ℕ → Type 0
IsIn lo hi x = (lo ≤ x) × (x ≤ hi)

pub range-IsIn :
    (lo hi default : ℕ) (field : Field) (value : ℕ)
    → IsIn lo hi default
    → IsIn lo hi (validate_range lo hi default field value).0
unfolding validate_range
range-IsIn lo hi default field value h =
    if_either {A = Checked ℕ} (λ q. IsIn lo hi q.0) (ltb value lo || ltb hi value) _ _ (λ e. h)
      (λ e. (ground (arith, e), ground (arith, e)))

-- The TCP port is no system port; the UDP port is none either, leaves room for the three streams
-- above it, and is another one.
pub record ArePorts (tcp udp : ℕ) : Type 0 where
  pub tcp_in : IsIn 1024 65535 tcp
  pub udp_in : IsIn 1024 65532 udp
  pub apart : tcp ≢ udp

low-IsIn :
    (default : ℕ) (field : Field) (port : ℕ)
    → IsIn 1024 65535 default
    → port < 2 ^ 16
    → IsIn 1024 65535 (check_low default field port).0
unfolding check_low
low-IsIn default field port h small =
    if_either {A = Checked ℕ} (λ q. IsIn 1024 65535 q.0) (ltb port 1024) _ _ (λ e. h)
      (λ e. (ground (arith, e), omega (arith, small)))

high-IsIn : (port : ℕ) → IsIn 1024 65535 port → IsIn 1024 65532 (check_high port).0
unfolding check_high
high-IsIn port h =
    if_either {A = Checked ℕ} (λ q. IsIn 1024 65532 q.0) (ltb max_udp port) _ _ (λ e. omega arith)
      (λ e. (omega (arith, h), ground (arith, e)))

apart-ArePorts :
    (tcp udp : ℕ) → IsIn 1024 65535 tcp → IsIn 1024 65532 udp → ArePorts tcp (check_apart tcp udp).0
unfolding check_apart
apart-ArePorts tcp udp t u =
    if_either {A = Checked ℕ} (λ q. ArePorts tcp q.0) (tcp == udp) _ _
      (λ same.
        if_either (λ p. ArePorts tcp p) (ltb tcp max_udp) _ _
          (λ room. record {
            tcp_in = t;
            udp_in = (omega (arith, t), ground (arith, room));
            apart = λ e. omega (arith, e);
          })
          (λ top. record {
            tcp_in = t;
            udp_in = (ground (arith, top), ground (arith, same, u, t));
            apart = λ e. omega (arith, e, t);
          }))
      (λ different. record {
        tcp_in = t;
        udp_in = u;
        apart = λ e. absurd (ground (arith, e, different));
      })

pub check_ports-ArePorts :
    (tcp udp : ℕ)
    → tcp < 2 ^ 16
    → udp < 2 ^ 16
    → ArePorts (check_ports tcp udp).0.0 (check_ports tcp udp).0.1
unfolding check_ports
check_ports-ArePorts tcp udp t u =
    apart-ArePorts _ _ (low-IsIn _ _ tcp (omega arith) t)
      (high-IsIn _ (low-IsIn _ _ udp (omega arith) u))

-- A size that the encoder takes.
abbrev pub IsSize : ℕ → Type 0
IsSize size = IsIn 320 4096 size × (size % 2 ≡ 0)

even-IsSize : (size : ℕ) → IsIn 320 4096 size → IsSize (check_even size).0
unfolding check_even
even-IsSize size h =
    if_either {A = Checked ℕ} (λ q. IsSize q.0) (size % 2 == 1) _ _
      (λ odd.
        let one : size % 2 ≡ 1 = ground (arith, odd) in
        ((omega (arith, h, one), omega (arith, h)), omega (arith, h, one)))
      (λ even.
        let zero_left : size % 2 ≢ 1 = λ e. absurd (ground (arith, e, even)) in
        (h, omega (arith, zero_left)))

pub check_size-IsSize :
    (default size : ℕ) → IsIn 320 4096 default → IsSize (check_size default size).0
unfolding check_size
check_size-IsSize default size h = even-IsSize _ (range-IsIn 320 4096 default _ size h)
