-- ===== src/Join/Groups.antt =====
-- What the plugin of plugin/action/join/join.go should make of a sequence of events, said without its
-- state: an event that matches `start` and the run of continuations behind it are one event.
use file_d.Base.{
  ◌≡◌, Bytes, Bool, true, false, not, ◌&&◌, Option, none, some, List, [], ◌∷◌, ◌++◌, All,
}
use file_d.Join.{Node, Event, Config, mutate, first_ok, next_ok, grow}

module _ (config : Config) where
  abbrev pub node_starts : Option Node → Bool
  node_starts none = false
  node_starts (some node) = first_ok config node

  abbrev pub node_continues : Option Node → Bool
  node_continues none = false
  node_continues (some node) = not (first_ok config node) && next_ok config node.value

  abbrev pub value_of : Option Node → Bytes
  value_of none = []
  value_of (some node) = node.value

  -- The text of the first event grows by the texts of the others.
  abbrev pub grow_all : Bytes → List Event → Bytes
  grow_all buff [] = buff
  grow_all buff (e ∷ es) = grow_all (grow config buff (value_of e.node)) es

  abbrev pub Ends : List Event → Type 0
  Ends [] = Unit
  Ends (e ∷ es) = node_continues e.node ≡ false

  -- The events that a sequence becomes: a group is as long as it can be.
  pub data Groups : List Event → List Event → Type 0 where
    no_more : Groups [] []
    alone :
        {es out : List Event} (e : Event)
        → node_starts e.node ≡ false
        → Groups es out
        → Groups (e ∷ es) (e ∷ out)
    joined :
        {rest out : List Event} (e : Event) (more : List Event)
        → node_starts e.node ≡ true
        → All (λ x. node_continues x.node ≡ true) more
        → Ends rest
        → Groups rest out
        → Groups (e ∷ (more ++ rest)) (mutate e (grow_all (value_of e.node) more) ∷ out)
