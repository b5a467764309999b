-- ===== src/Examples/Scans.antt =====
-- Tests of ScopeGuard and its children.
use mathlib.Core.Option
use vaultscan.Prelude.{
  ℕ, ◌≤◌, ◌≡◌, ◌∙◌, sym, ◌↔◌, inl, inr, refl, none, some, Option, [], ◌∷◌, arith, true, false,
  Bytes, codes, bytes_equal, ◌==◌, if◌then◌else◌,
}
use vaultscan.ScopeGuard.Targets.{
  Address, Network, TextLib, contains, host_from_url, has_suffix, domain_target, in_domain,
  in_network, matches,
}
use vaultscan.ScopeGuard.Windows.{
  check_window, check_blackouts, day_listed, outside_hours, minute_of_day, day_name,
}
use vaultscan.ScopeGuard.{
  Inputs, approved, all_satisfied, Engagement, Db, intensity_rank, target_in_scope,
  check_engagement, check_agent, check_intensity, check_target, decide, evaluate, or_approved,
  blocked_time_window, time_window,
}
use vaultscan.ScopeGuard.Networks.{Names, matches-covers}
use vaultscan.ScopeGuard.Hosts.{Avoids, IsUnder, authority_end, matches-domain, matches_userinfo}
use vaultscan.ScopeGuard.Gates.{IsAuthorized, NotBlackedOut, InWindow}
use vaultscan.ScopeGuard.Approval.{evaluate_sound, evaluate_complete}

-- Every text is a network within 10.0.0.0/8; one that starts with n is all of it.
pub toy_cidr : Bytes → Option Network
toy_cidr [] = none
toy_cidr (c ∷ s) = some (record {
  base = record { bits = 32; value = 167_772_160 };
  ones = if c == b'n' then 8 else 16;
  mask_bits = 32;
})

toy_cidr-masks : (s : Bytes) (n : Network) → toy_cidr s ≡ some n → n.ones ≤ n.mask_bits
unfolding toy_cidr
toy_cidr-masks [] n e = cc
toy_cidr-masks (c ∷ s) n e = ground arith

toy_cidr-form : (s : Bytes) (n : Network) → toy_cidr s ≡ some n → n.mask_bits ≡ 32
unfolding toy_cidr
toy_cidr-form [] n e = cc
toy_cidr-form (c ∷ s) n e = ground arith

abbrev pub toy : TextLib
toy = record {
  to_lower = λ s. s;
  trim_space = λ s. s;
  equal_fold = bytes_equal;
  parse_ip = λ s. none;
  parse_cidr = toy_cidr;
}

range_in_scope : matches toy (codes "cidr") (codes "n") (codes "network") (codes "m") ≡ true
unfolding matches in_network contains toy_cidr
range_in_scope = refl

matches-covers_example :
    (n : Network) × (toy_cidr (codes "n") ≡ some n)
    × ((a : Address) → Names toy (codes "m") a → contains n a ≡ true)
matches-covers_example =
    matches-covers toy toy_cidr-masks (codes "n") (codes "network") (codes "m")
      (λ n t p q. toy_cidr-form (codes "n") n p ∙ sym (toy_cidr-form (codes "m") t q))
      range_in_scope

-- 1.2.0.0/24, and ::ffff:1.2.0.0/112, which is 1.2.0.0/16.
abbrev mapped_cidr : Bytes → Option Network
mapped_cidr s = some (record {
  base = record { bits = 32; value = 16_908_288 };
  ones = if bytes_equal s (codes "n") then 24 else 112;
  mask_bits = if bytes_equal s (codes "n") then 32 else 128;
})

-- The wider network is in scope, with the address 1.2.5.0, which the scope does not hold.
wider_in_scope :
    (matches
        (record toy { parse_cidr = mapped_cidr })
        (codes "cidr")
        (codes "n")
        (codes "network")
        (codes "m")
      ≡ true)
    × (Option.map
          (λ n. contains n (record { bits = 32; value = 16_909_568 }))
          (mapped_cidr (codes "m"))
        ≡ some true)
    × (Option.map
          (λ n. contains n (record { bits = 32; value = 16_909_568 }))
          (mapped_cidr (codes "n"))
        ≡ some false)
unfolding matches in_network contains
wider_in_scope = (refl, refl, refl)

matches-domain_example :
    (matches toy
        (codes "domain")
        (codes "example.com")
        (codes "url")
        (codes "https://api.example.com/x")
      ≡ true)
    ↔ IsUnder (codes "example.com") (codes "api.example.com")
unfolding Avoids
matches-domain_example =
    matches-domain toy (codes "example.com") (codes "https://api.example.com/x") (codes "https")
      (codes "api.example.com") (codes "/x") refl (ground arith) (ground arith) (ground arith)
      (authority_end b'/' (codes "x") refl) (omega arith)

matches_userinfo_example :
    matches toy
      (codes "domain")
      (codes "example.com")
      (codes "url")
      (codes "https://example.com:x@other.test/")
    ≡ true
unfolding Avoids
matches_userinfo_example =
    matches_userinfo toy (codes "example.com") (codes "https://example.com:x@other.test/")
      (codes "https") (codes "example.com") (codes "x") (codes "other.test/") refl (ground arith)
      (ground arith) (ground arith) (omega arith) (inl refl)

abbrev pub engagement : Engagement
engagement = record {
  status = codes "active";
  starts_at = 0;
  ends_at = 9_000_000_000_000_000;
  tenant_id = 5;
  partner_id = 3;
  intensity = codes "standard";
}

-- Blacked out in the first minute of 1970, and open from 08:00 to 18:00.
abbrev pub db : Db
db = record {
  engagement = λ id. some engagement;
  document_count = λ id. 1;
  blackouts = λ id. record { label = codes "drill"; starts_at = 0; ends_at = 60_000_000_000 } ∷ [];
  rules = λ id. some (record {
    scan_window_start = some 28_800;
    scan_window_end = some 64_800;
    days_of_week = codes "thu" ∷ [];
  });
  scope_targets = λ id. some (
    record {
      target_type = codes "domain";
      target_value = codes "example.com";
      plane = codes "internal";
    }
        ∷ [],
    false,
  );
  agent = λ id. some (record { tenant_id = 5; status = codes "online" });
  assigned = λ agent id. 1;
  profile = λ code. some (record { intensity = codes "light"; requires_approval = false });
  max_scans_per_hour = λ id. 4;
  recent_scans = λ id. 3;
}

abbrev inputs : ℕ → Inputs
inputs now = record {
  tenant_id = 5;
  partner_id = 3;
  engagement_id = 1;
  scan_profile = codes "quick";
  target_type = codes "domain";
  target_value = codes "www.example.com";
  plane = codes "internal";
  agent_id = some 8;
  requested_by = none;
  now = some now;
  recent_jobs_last_hour = 49;
  intensity = codes "light";
}

abbrev pub noon : ℕ
noon = 43_200_000_000_000

approved_at_noon :
    (evaluate toy db 0 (inputs noon) []).0
    ≡ some (record { code = approved; reason = all_satisfied })
unfolding evaluate decide check_engagement check_target check_agent check_intensity target_in_scope
    matches in_domain domain_target has_suffix host_from_url check_window check_blackouts day_listed
    outside_hours minute_of_day day_name intensity_rank
approved_at_noon = refl

blocked_in_drill :
    (evaluate toy db 0 (inputs 60_000_000_000) []).0
    ≡ some (record {
      code = blocked_time_window;
      reason = time_window (codes "blackout window active: drill");
    })
unfolding evaluate decide check_engagement check_blackouts
blocked_in_drill = refl

evaluate_sound_example :
    (e : Engagement) × (some engagement ≡ some e) × IsAuthorized toy db (inputs noon) noon e
evaluate_sound_example =
    evaluate_sound toy db 0 (inputs noon) [] (record { code = approved; reason = all_satisfied })
      approved_at_noon refl

authorized : IsAuthorized toy db (inputs noon) noon engagement
unfolding NotBlackedOut InWindow matches in_domain domain_target has_suffix host_from_url day_listed
    outside_hours minute_of_day day_name intensity_rank
authorized = record {
  under_tenant_limit = omega arith;
  same_tenant = refl;
  same_partner = refl;
  active = refl;
  started = omega arith;
  not_ended = omega arith;
  documented = omega arith;
  not_blacked_out = (inr (omega arith), tt);
  in_window = (refl, refl);
  covered = (_, refl, inl (refl, refl));
  on_agent = λ _. (8, refl, refl, omega arith);
  within_intensity = omega arith;
  under_engagement_limit = inr (omega arith);
  allowed_aggressive = inl refl;
}

evaluate_complete_example :
    evaluate toy db 0 (inputs noon) []
    ≡ (some (or_approved none), record { inputs = inputs noon; decision = or_approved none } ∷ [])
evaluate_complete_example = evaluate_complete toy db 0 (inputs noon) [] engagement refl authorized
