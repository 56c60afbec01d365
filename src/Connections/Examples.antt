-- ===== src/Connections/Examples.antt =====
-- The connection list at three nodes: its theorems, and two runs.
use c_modules.Base.{ℕ, refl, Option, none, some, [], ◌∷◌, ◌==◌, if◌then◌else◌, arith}
use c_modules.Connections.Nodes.{ConList, Table, forward, insert_con_node, find_con_node}
use c_modules.Connections.Removal.{remove_con_node}
use c_modules.Connections.Focus.{Out, Focus}
use c_modules.Connections.Focus.Insert.{Inserted, insert_con_node-Inserted}
use c_modules.Connections.Focus.Find.{Finds, find_con_node-Finds}
use c_modules.Connections.Focus.Remove.{LosesBack, remove_con_node-LosesBack}
use c_modules.Connections.Focus.RemoveCurrent.{Removes, remove_con_node-Removes}

abbrev node : ℕ → Option ℕ → Option ℕ → ConList
node cid previous next = record { cid = cid; next = next; previous = previous }

-- CIDs 10, 20 and 30 at the addresses 1 to 3, the second current; a node of CID 25 at 4.
abbrev three : Table
three = record {
  nodes = λ a.
      if a == 1
      then node 10 none (some 2)
      else if a == 2
      then node 20 (some 1) (some 3)
      else if a == 3
      then node 30 (some 2) none
      else node 25 none none;
  con_head_node = some 1;
  con_last_node = some 3;
  con_current_node = some 2;
}

three-Focus : Focus forward three 2 (1 ∷ []) (3 ∷ [])
unfolding Out
three-Focus = record {
  behind = (refl, refl, refl, refl);
  ahead = (refl, refl, refl, refl);
  start = refl;
  stop = refl;
}

insert_con_node-Inserted_example :
    Inserted forward 4 three (1 ∷ 2 ∷ 3 ∷ []) (insert_con_node 3 4 three)
insert_con_node-Inserted_example =
    insert_con_node-Inserted 3 4 2 three (1 ∷ []) (3 ∷ []) refl three-Focus (omega arith)
      (omega arith)

find_con_node-Finds_example : Finds three 30 (1 ∷ 2 ∷ 3 ∷ []) (find_con_node 3 30 three)
find_con_node-Finds_example =
    find_con_node-Finds 3 three 30 2 (1 ∷ []) (3 ∷ []) refl three-Focus (omega arith)

remove_con_node-Removes_example : Removes 2 three (1 ∷ []) (3 ∷ []) (remove_con_node 3 20 three)
remove_con_node-Removes_example =
    remove_con_node-Removes 3 three 2 (1 ∷ []) (3 ∷ []) refl three-Focus

remove_con_node-LosesBack_example : LosesBack 1 3 three (remove_con_node 3 10 three)
remove_con_node-LosesBack_example =
    remove_con_node-LosesBack 3 three 2 1 [] (3 ∷ []) refl three-Focus (omega arith)
