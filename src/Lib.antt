-- ===== src/Lib.antt =====
-- OpenArm's guarded path to the motors: the transport that lets a frame onto the CAN bus, the
-- sessions that calibrate a joint, and the controller that arms and moves the simulated arms.
--
-- Transport/ models transport/src/transport.cpp, transport_internal.hpp and c_api.cpp. `classify`
-- (Transport/Classify) names what a frame would do to a motor; Core holds class Transport with
-- validateDeadline, consumeAuthority, send, receive and close; Issue holds issueAuthority, Random
-- secureRandom64, Api the public C functions, and Run any sequence of the calls. The virtual class
-- Backend is a record of operations on any state, so that a theorem holds of each backend.
-- A call is one step, as if it held the mutexes that it takes from its first line to its last:
-- calls of several threads are ordered as wholes. The transport's frames are compared with those
-- that the CAN codec builds: Can/ models these builders and the register tables of
-- can/src/openarm_can.c; a binary32 is its 32 bits there.
--
-- Commission/ models commission/src/calibration_session.cpp. Manual holds the session of one joint
-- at one or two known poses, Manual/History any sequence of its calls. Recipe holds the session
-- that drives a joint against a stop: Recipe/Guards its checks and the action that it orders,
-- Recipe/Phases the cases of the switch of `step`, Recipe/Session its methods. Sampling and Text
-- hold what both use. A double is a value of a parameter type with the operations that the code
-- uses (Shared/Double), so that no law of rounding is assumed. A text is the bytes that can be
-- read from its pointer on.
--
-- Control/ models control/src/control_core.cpp. Ring holds the two queues of 64 slots, Motor class
-- DamiaoMotorSimulator, Arm class ArmRuntime, Config, Plan and Codes the records and constants of
-- control/include/openarm_control.h. Controller holds the state of class Controller and what all of
-- its methods use, and its children the methods: Arming (verification, challenge, arm, interlock,
-- stop, disarm, reset), Planning (plan_joint, and plan_preconditions, with which each of the
-- bimanual planners begins), Execute, Monitors (keepout and contact), Obstacle, References,
-- Settling and Advance (the cycle), and Simulation. The value that oa_estop_asserted returns is an
-- argument of the methods that call it. `forward` and the functions
-- of the model library that the monitors call are a record of functions (Geometry). Control/Run
-- holds any sequence of the calls. Manifest holds the constructor of class Manifest, which checks
-- the configuration that the rest takes as it is given: Manifest/Motor the checks of one motor,
-- Manifest/Load the loops with their sets; what model_limit answers is a parameter. Manifest/Safe
-- and Accepted say what an accepted configuration is.
-- An array of the two sides is a record of two, one of joints is a list of seven; the masks of the
-- joints are sums of distinct powers of two. A way point that a plan does not set is left out.
--
-- Unsigned integers are natural numbers, with the wrap-around written out where the code can reach
-- it; a theorem that needs an argument's width says so. A function returns its status with the
-- next state, and writes through an out pointer are Options. Every
-- loop is over a given list but for two of Control: publish_due has one pass more than generations
-- are queued, which publish_due_ends shows to be enough, and the search of the way point one for
-- each way point, of which it can pass each once. The loops that wait for getrandom are over the
-- list of its answers, where `none` says that more answers are awaited; issue_total says that
-- answers suffice.
--
-- Not modelled: SocketCAN and the opening of a transport, the arithmetic codec and the bus probe of
-- can/, the C functions around the sessions and the controller, the bimanual planners of
-- control/, runtime/, model/ (numerical C), the ROS nodes, scripts.
-- Shared/ holds the names, tests and small types that the parts share.
pub mod Shared
pub mod Can
pub mod Transport
pub mod Commission
pub mod Control
