-- ===== src/Features.antt =====
-- pkg/ebpf/features.go and `CountBits` of pkg/ebpf/manager.go: the counters of a UE become
-- features. The counters are 64-bit numbers of the kernel program, below 2^64.
pub mod Bits
use an_lf.Base.{
  ℕ, zero, suc, ◌+◌, ◌/◌, ◌%◌, Bool, true, false, ◌&&◌, Option, none, some, ltb, if◌then◌else◌,
}
use an_lf.Base.Int.{pos}
use an_lf.Float.{Float64}
use an_lf.Models.{UeFeatureVector}

-- `anlfUeMetricsT`, which is generated from `struct ue_metrics_t` of bpf/include/maps.h.
pub record UeMetrics : Type 0 where
  pub packet_count : ℕ
  pub byte_count : ℕ
  pub tcp_count : ℕ
  pub udp_count : ℕ
  pub icmp_count : ℕ
  pub syn_count : ℕ
  pub rst_count : ℕ
  pub new_flow_count : ℕ
  pub dst_bitmap : ℕ
  pub dl_packet_count : ℕ
  pub dl_byte_count : ℕ
  pub dl_tcp_count : ℕ
  pub dl_ack_count : ℕ

-- The number of ones in the lowest `k` binary digits; `bits.OnesCount64` is `ones_count 64`.
pub ones_count : ℕ → ℕ → ℕ
ones_count zero n = 0
ones_count (suc k) n = n % 2 + ones_count k (n / 2)

-- The loop of `CountBits`, on fuel: `none` means that it ran out.
unfoldable pub count_loop : ℕ → ℕ → ℕ → Option ℕ
count_loop zero bitmap count = none
count_loop (suc fuel) bitmap count =
    let more = count_loop fuel (bitmap / 2) (count + bitmap % 2) in
    if ltb 0 bitmap then more else some count

-- A 64-bit number has at most 64 digits: one round for each of them, and the one that ends the
-- loop.
unfoldable pub count_bits : ℕ → Option ℕ
count_bits bitmap = count_loop 65 bitmap 0

module _ {F : Type 0} (fl : Float64 F) where
  pub zero_features : UeFeatureVector F
  zero_features =
      let o = fl.lit 0 0 in
      record {
        ul_log_pps = o;
        avg_len = o;
        icmp_ratio = o;
        tcp_ratio = o;
        udp_ratio = o;
        syn_ratio = o;
        rst_ratio = o;
        new_flow_rate = o;
        fan_out = o;
        dl_log_pps = o;
        dl_avg_len = o;
        pps_ratio = o;
        byte_ratio = o;
        ack_ratio = o;
      }

  abbrev pub of_count : ℕ → F
  of_count n = fl.of_int (pos n)

  -- `math.Round(x*100) / 100`.
  pub two_decimals : F → F
  two_decimals x = fl.div (fl.round (fl.mul x (fl.lit 100 0))) (fl.lit 100 0)

  abbrev capped_at_one : F → F
  capped_at_one x = if fl.lt (fl.lit 10 1) x then fl.lit 10 1 else x

  -- `ConvertToFeatures` on counters with a packet in one direction at least.
  pub traffic_features : UeMetrics → UeFeatureVector F
  unfolding ones_count two_decimals
  traffic_features m =
      let o = fl.lit 0 0 in
      let ul = of_count m.packet_count in
      let dl = of_count m.dl_packet_count in
      let up : F → F = λ x. two_decimals (if fl.lt o ul then x else o) in
      let down : Bool → F → F = λ b x. two_decimals (if fl.lt o dl && b then x else o) in
      record {
        ul_log_pps = up (fl.log10 ul);
        avg_len =
            two_decimals
              (if ltb 0 m.byte_count && fl.lt o ul then fl.div (of_count m.byte_count) ul else o);
        icmp_ratio = up (fl.div (of_count m.icmp_count) ul);
        tcp_ratio = up (fl.div (of_count m.tcp_count) ul);
        udp_ratio = up (fl.div (of_count m.udp_count) ul);
        syn_ratio = up (fl.div (of_count m.syn_count) ul);
        rst_ratio = up (fl.div (of_count m.rst_count) ul);
        new_flow_rate = up (capped_at_one (fl.div (of_count m.new_flow_count) ul));
        fan_out = two_decimals (fl.div (of_count (ones_count 64 m.dst_bitmap)) (fl.lit 64 0));
        dl_log_pps = down true (fl.log10 dl);
        dl_avg_len = down (ltb 0 m.dl_byte_count) (fl.div (of_count m.dl_byte_count) dl);
        pps_ratio = down (fl.lt o ul) (fl.div dl ul);
        byte_ratio =
            down (ltb 0 m.byte_count) (fl.div (of_count m.dl_byte_count) (of_count m.byte_count));
        ack_ratio =
            down (ltb 0 m.dl_tcp_count)
              (fl.div (of_count m.dl_ack_count) (of_count m.dl_tcp_count));
      }

  -- `ConvertToFeatures`; the counters may be nil.
  unfoldable pub convert_to_features : Option UeMetrics → UeFeatureVector F
  unfolding zero_features traffic_features
  convert_to_features none = zero_features
  convert_to_features (some m) =
      if fl.eq (of_count m.packet_count) (fl.lit 0 0)
        && fl.eq (of_count m.dl_packet_count) (fl.lit 0 0)
      then zero_features
      else traffic_features m
