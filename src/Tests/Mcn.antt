-- ===== src/Tests/Mcn.antt =====
-- Runs of the network manager.
use mcn.Prelude.{ℕ, String, [], ◌∷◌, ◌++◌, ◌≡◌, refl}
use mcn.Kube.{ok, Value}
use mcn.Vni.{allocate_vni, collect_vnis, find_next_available_vni}
use mcn.Mcn.{
  networks, get_finalizer_name, get_mcn, new_mcn, create_new_mcn, create_or_join_mcn, leave_mcn,
}
use mcn.Mcn.Stored.{find, vnis, IsDistinct}
use mcn.Mcn.Membership.Create.{Outcome, allotted}
use mcn.Mcn.Membership.Atomic.{create_or_join_mcn-Outcome}
use mcn.Mcn.Membership.Leave.{Leaves, leave_mcn-Leaves}
use mcn.Mcn.Membership.Unique.{join, leave, Reach, here, next, Reach-IsDistinct}
use mcn.Mcn.Membership.Race.{first, second, race_shares_vni}
use mcn.Tests.Codec.{encode, decode}
use mcn.Tests.Broker.{Networks, manager, manager-IsServer, network}

abbrev start : Networks
start = network "blue" 5000 ∷ []

abbrev joined : Networks
joined = (create_or_join_mcn (manager "east") "red" "Layer2" start).1

created_red : vnis joined ≡ 5000 ∷ 5001 ∷ []
unfolding create_or_join_mcn create_new_mcn get_mcn get_finalizer_name allocate_vni collect_vnis
    find_next_available_vni decode find vnis
created_red = refl

create_or_join_mcn-Outcome_example :
    Outcome
      (get_finalizer_name (manager "east"))
      "red"
      "Layer2"
      start
      joined
      (create_or_join_mcn (manager "east") "red" "Layer2" start).0
create_or_join_mcn-Outcome_example =
    create_or_join_mcn-Outcome (manager "east") (λ w. w) (manager-IsServer "east") "red" "Layer2"
      start

leave_mcn-Leaves_example :
    Leaves
      (get_finalizer_name (manager "east"))
      "blue"
      start
      (leave_mcn (manager "east") "blue" start).1
      (leave_mcn (manager "east") "blue" start).0
leave_mcn-Leaves_example =
    leave_mcn-Leaves (manager "east") (λ w. w) (manager-IsServer "east") "blue" start

start-IsDistinct : IsDistinct (vnis start)
unfolding vnis
start-IsDistinct = (refl, tt)

abbrev two_steps : Reach manager start (leave_mcn (manager "west") "red" joined).1
two_steps = next (next here (join "east" "red" "Layer2" start)) (leave "west" "red" joined)

Reach-IsDistinct_example : IsDistinct (vnis (leave_mcn (manager "west") "red" joined).1)
Reach-IsDistinct_example =
    Reach-IsDistinct manager (λ w. w) manager-IsServer start-IsDistinct two_steps

-- The clusters east and west each create a network of their own, with interleaved calls.
abbrev after_east : Networks
after_east = start ++ allotted (manager "east") "red" "Layer3" 5001 ∷ []

abbrev submitted : String → String → Value
submitted id name = encode (allotted (manager id) name "Layer3" 5001)

east_gets :
    (first
      (manager "east")
      (manager "west")
      (λ w. w)
      (manager-IsServer "east")
      (manager-IsServer "west")
      "red"
      "green"
      "Layer3"
      "Layer3"
      start).0
    ≡ ok 5001
unfolding allocate_vni collect_vnis find_next_available_vni decode new_mcn
east_gets = refl

west_gets :
    (second
      (manager "east")
      (manager "west")
      (λ w. w)
      (manager-IsServer "east")
      (manager-IsServer "west")
      "red"
      "green"
      "Layer3"
      "Layer3"
      start).0
    ≡ ok 5001
unfolding allocate_vni collect_vnis find_next_available_vni decode new_mcn
west_gets = refl

east_creates :
    ((networks (manager "east")).create (submitted "east" "red") start).0
    ≡ ok (submitted "east" "red")
unfolding decode find new_mcn
east_creates = refl

west_creates :
    ((networks (manager "west")).create (submitted "west" "green") after_east).0
    ≡ ok (submitted "west" "green")
unfolding decode find new_mcn
west_creates = refl

race_shares_vni_example :
    (◌≡◌ {A = ℕ} 5001 5001)
    × ¬ IsDistinct (
        vnis
          ((networks (manager "west")).create
            (submitted "west" "green")
            ((networks (manager "east")).create (submitted "east" "red") start).1).1)
unfolding allocate_vni collect_vnis find_next_available_vni decode find new_mcn
race_shares_vni_example =
    race_shares_vni (manager "east") (manager "west") (λ w. w) (manager-IsServer "east")
      (manager-IsServer "west") "red" "green" "Layer3" "Layer3" start 5001 5001
      (submitted "east" "red") (submitted "east" "red") (submitted "west" "green")
      (submitted "west" "green") east_gets west_gets refl east_creates refl west_creates
