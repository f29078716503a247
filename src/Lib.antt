-- ===== src/Lib.antt =====
-- MsgFacade, the C++ facade over the message store of Msgcore: a client sees stores, nodes, cursors and
-- walks, and no pointer of the core. A node is a route, a list of steps from the root of a store, that is
-- resolved anew at each call. The COM layer in com/ wraps it for scripts.
--
-- The parts and their files:
--   HResult, Outcome, Outcome.Act: the result codes of include/MsgFacade.h, and how a call ends. A raise
--     of the core is `none`, and `attempt` is the handler that turns it into MSGF_E_CORE. A method that
--     changes a state gives the state that it leaves, also where it fails.
--   CopyOut: CopyOut and CopyOutBytes of src/FacadeInternal.h. A buffer is the list of its units.
--   Types, Guid: the type tables, IntFits, the casts and the GUID text of src/FacadeInternal.cpp.
--   Route: FacadeStep of src/FacadeInternal.h, IsUsableName, and ParseRoute and FormatRoute of
--     src/FacadeStore.cpp. A step of scope 2 goes to an element of a vect and has an index.
--   Core: what the facade calls of Msgcore, as the record `Msgcore` that every later part takes. It is
--     another library, so it is a parameter. `Cursor.Moves.Positions` states the documented behaviour of
--     its cursors, and `Example` has an instance of both.
--   Store: the state of FacadeStore, StoreGuard, ResolveObject and ResolveField of src/FacadeStore.cpp.
--   Store.Search: SearchPos and RouteOfPos.
--   Store.Life: Create, Open, Release, Save, Load, Clear, Rename, the sinks and the paging registration.
--   Store.Tree, Store.Queries, Store.Triggers: the ways into the tree, what a store tells of itself, and
--     the triggers and pages, with the functions by which the core calls back.
--   Values: the reads, writes and declares of one cell, src/FacadeInternal.cpp.
--   Cursor, Walker: FacadeCursor and FacadeWalker of src/FacadeCursor.cpp.
--   Node, Node.Declares, Node.Restructure, Node.Containers, Node.Stack: FacadeNode of
--     src/FacadeNode.cpp; Node.Containers has MakeProto of src/FacadeInternal.cpp as well.
--   Container, Container.Lists, Container.Vects: FacadeList and FacadeVect of src/FacadeContainer.cpp,
--     and ListCellAt of src/FacadeInternal.cpp.
--   Library: FacadeLibrary and MSGF_CreateLibrary of src/FacadeLibrary.cpp.
--   Com.Codes, Com.Strings, Com.Values: FromFacade, ReadString and the VARIANT plumbing of
--     com/ComUtil.cpp. VariantChangeType is a parameter, and a VARIANT comes unwrapped.
--   Com.Cursor, Com.Enum, Com.Kinds: CMsgCursor and its enumerator, com/ComCursor.cpp. A cursor notes the
--     count of mutations of its CMsgStore and is built again by Bind when the store has changed.
--   Com.Collections, Com.Vects: the helpers of MsgAttr and MsgDesc, CMsgList, SplitPath and CMsgVect, of
--     com/ComColl.cpp.
--   Com.Fields, Com.Fields.Edits, Com.Fields.Renames: CMsgField of com/ComField.cpp.
--   Com.Stores, Com.Stores.Queries, Com.Stores.Nodes, Com.Stores.Notices: CMsgStore of com/ComStore.cpp,
--     which holds a store of the facade, counts its changes, and hands out its nodes. What a cursor or a
--     field needs of it is `Com.Cursor.ComStore`.
--   Com.Events, Com.Events.Sinks, Com.Events.Dispatch: the event queue of com/ComStore.cpp, its sinks, and
--     the dispatch thread, as steps that take turns with those of the threads that push. A step is what
--     is done under one lock, or one call of the system.
--   Com.Walk: CMsgRecurs of com/ComWalk.cpp, a walk that keeps the names on the way to its stop.
--   Fn.Handles: `Handle` of include/MsgFacadeFn.hpp, which owns an object that the facade handed over.
--   Fn.Names: the loop of `Node::names` there. It ends as a cursor of the core does, so it runs on fuel.
-- A node, a container, a cursor and a walk hold the store in which they were made. They resolve their
-- route by Store, read and write the cell there by Values, and answer texts by CopyOut.
--
-- Numbers: units, sizes and unsigned arguments are natural numbers with the wrap of their width written
-- out; `int` and `long long` are integers.
--
-- Fuel: ParseRoute takes one unit for each character and one more, and each round of its loop reads a
-- character at least. The loop of SearchPos that collects names runs as long as the core moves its
-- cursor on, so its fuel is an argument, and `diverge` is the answer when it is used up. The depth of
-- SearchPos is bounded by MAX_DEPTH as in the source.
--
-- Not modelled: locks, but for those of the event queue, since each method runs whole under the lock of
-- its store; memory that is used up; the MFC module state; the forwarding of CreateStore and OpenStore of
-- the library to the store; of the COM layer the error texts, the safe arrays and dates of
-- com/ComUtil.cpp, the connection point methods that only answer E_NOTIMPL or an interface, VersionString,
-- _NewEnum of fields and lists, and com/ComModule.cpp, which is glue; include/MsgFacadeFn.hpp but
-- for its handles and Node::names, whose other methods forward each method to an interface.
pub mod Prelude
pub mod HResult
pub mod CopyOut
pub mod Types
pub mod Guid
pub mod Route
pub mod Outcome
pub mod Core
pub mod Store
pub mod Values
pub mod Cursor
pub mod Example
pub mod Fn
pub mod Com
pub mod Container
pub mod Library
pub mod Node
pub mod Walker
