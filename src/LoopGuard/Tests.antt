-- ===== src/LoopGuard/Tests.antt =====
-- internal/loopguard.go: runs at concrete inputs, and the theorems at inputs that meet their
-- hypotheses. The network is one in which an address is its text.
use cifera.Base.{
  ◌≤◌, ◌≡◌, refl, true, false, ◌||◌, none, some, [], ◌∷◌, if◌then◌else◌, Text, codes, text_eq,
  text_dec, has_suffix, has_prefix, to_lower, trim, atoi, parse_digits, itoa, lookup, insert,
  sub_time,
}
use cifera.LoopGuard.Address.{
  cut_last, cut_first, split_host_port, default_port_for_schema, split_target_host,
  next_max_forwards, remaining, hop,
}
use cifera.LoopGuard.Guard.{
  Net, Answers, LoopGuard, new_loop_guard, refresh, cached_or_refresh, local_addr_set,
  is_bound_or_local, is_local_ip, remember, resolved, resolve_now, cached_or_resolve, lookup_host,
  any_local, is_local_parsed, is_local_name, is_self,
}
use cifera.LoopGuard.Bounded
use cifera.LoopGuard.Hops
use cifera.LoopGuard.Hops.{arrived, forwarded}

program : Unit {0}
unfolding text_eq text_dec has_suffix has_prefix to_lower trim atoi itoa lookup insert sub_time
    cut_last cut_first split_host_port default_port_for_schema split_target_host next_max_forwards
    remaining hop new_loop_guard refresh cached_or_refresh local_addr_set is_bound_or_local
    is_local_ip remember resolved resolve_now cached_or_resolve lookup_host any_local
    is_local_parsed is_local_name is_self parse_digits
program = tt

abbrev loopback : Text
loopback = codes "127.0.0.1"

abbrev own : Text
own = codes "10.0.0.1"

abbrev net : Net Text
net = record {
  parse = λ s. if text_eq s loopback || text_eq s own then some s else none;
  is_loopback = text_eq loopback;
  is_unspecified = λ s. false;
  equal = text_eq;
  print = λ s. s;
}

abbrev env : Answers Text
env = record {
  interfaces = some (own ∷ []);
  resolve = λ s. if text_eq s (codes "me.org") then some (own ∷ []) else none;
}

abbrev guard : LoopGuard Text
guard = new_loop_guard net env (codes ":8080")

runs :
    (guard.port ≡ codes "8080")
    × ((is_self net env 5 guard (codes "me.org:8080") (codes "http")).0 ≡ true)
    × ((is_self net env 5 guard (codes "you.org:8080") (codes "http")).0 ≡ false)
    × (split_host_port (codes "[::1]:80") ≡ some (codes "::1", codes "80"))
    × (split_target_host (codes "a.org") (codes "HTTPS") ≡ (codes "a.org", codes "443"))
    × (hop [] ≡ some (codes "9"))
    × (hop (codes "99") ≡ some (codes "9"))
    × (hop (codes "0") ≡ none)
    × (hop (codes "-9223372036854775808") ≡ some (codes "9223372036854775807"))
    × (hop (codes "9223372036854775807") ≡ some (codes "9"))
unfolding program
runs = (refl, refl, refl, refl, refl, refl, refl, refl, refl, refl)

Hops-bounded_example : 2 ≤ 11
unfolding program
Hops-bounded_example = Hops.Hops-bounded (codes "7") 2 (codes "5") (
    forwarded {header' = codes "6"} refl
      (forwarded {header' = codes "5"} refl (arrived (codes "5"))))

is_self-IsKept_example :
    Bounded.IsKept guard (is_self net env 5 guard (codes "me.org:8080") (codes "http")).1
is_self-IsKept_example = Bounded.is_self-IsKept net env 5 guard (codes "me.org:8080") (codes "http")
