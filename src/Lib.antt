-- ===== src/Lib.antt =====
-- aero-safe-rl: PX4 quadrotors fly missions in Gazebo while a rotor may lose thrust; a detector
-- estimates the fault, a policy decides how to recover, and a farm of workers collects episodes.
-- This library models the Python code that decides, counts and restarts.
--
-- The parts, and where they are:
--   Features        ai/features/feature_extractor.py. TelemetryWindow is a list of frames, oldest
--                   first; append, extract and extract_series are functions of those names.
--   Policy.Action   rl/policies/base_policy.py: Action, ActionSpec (decode, clip, nominal) and
--                   load_action_spec over a parsed file.
--   Policy.Outcome  rl/policies/base_policy.py: OutcomeSpec and load_outcome_spec.
--   Policy.RuleBased  rl/policies/rule_based.py: act is observe, cut at its four statements (watch,
--                   suspect, resolve, escalate), then action_of. `after` runs it on a history.
--   Policy.Driver   rl/policy_driver.py: PolicyDriver.step is append_row, detect, consult (which
--                   calls ask) and annotate. BasePolicy and the detector are records of methods;
--                   Policies holds the policy classes and RecoveryConfig.build.
--   Policy.Alarm    ai/detector/runtime.py: DetectorRuntime around the network, and `sustained` of
--                   experiments/metrics.py.
--   Episode         experiments/episode_schema.py: Record has the enums and the record's part that is
--                   counted, Schema the validation; Logger is episode_logger.py of the bridge.
--                   next_reset_tier of experiments/episode_runner.py is in Record.
--   Farm.Supervisor experiments/worker_supervisor.py: one worker, its health check and restarts.
--   Farm            experiments/sim_farm.py and experiments/run_manifest.py: Defs takes records in,
--                   Create is the constructor, Run holds the restarts, start, stop and the round of
--                   the loop, Loop the whole run, Child the loop of a child process, Reach the
--                   interleavings.
--   Simulation      simulation/instance_spec.py: for_instance, topic and labels; Handshake has to_dict
--                   and from_dict over a dict of entries. A text such as px4_7 is its stem and its
--                   number.
--   Faults          experiments/fault_schedule.py: the fault label, its time profile, validation of a
--                   parsed configuration and the sampling of a schedule.
--   Bridge          ros2_ws/src/aero_bridge/aero_bridge/arming_sequence.py: the loops that arm, hold
--                   and land; an iteration reads the clock and the status once.
--   Mission         rl/mission_tracker.py: MissionTracker, with update as travel and hold; and
--                   validate_mission_config of ros2_ws/src/aero_bridge/aero_bridge/mission_executor.py.
--   Mission.Flight  the rest of mission_executor.py: Defs has the state of fly_mission and its inner
--                   functions, Loops the bridge's loops over that state, Run the flight and its result.
--   Reset           ros2_ws/src/aero_bridge/aero_bridge/reset.py: the three tiers. A reset returns the
--                   commands that it sends and its outcome.
--   Runner          experiments/episode_runner.py: Drive is the callback that injects the fault, Defs is
--                   run_episode over a record of what it calls, Site fills that record's resets.
--   Metrics         experiments/metrics.py: the delay and the false alarms of a detector, and
--                   classify_outcome.
-- A flight polls the tracker and the driver inside the loops of the bridge; the runner resets, flies
-- and records an episode; a child of the farm asks the runner for one episode after another.
-- The driver asks a policy, whose answer the action spec clips; the farm asks each supervisor to
-- restart its worker, and takes records from the children over one queue.
--
-- Numbers: a float is a whole number of millionths, simulated and wall time are microseconds, and a
-- comparison of a difference is moved to one side. NaN is `none` in telemetry, its columns and the
-- features; the numbers of actions, policies, detector outputs and configurations are finite, so that
-- a policy or a network that answers NaN is outside the model. An exception is a value: Result where nothing is
-- mutated, and a Method, which returns the object's new state also when it raises, elsewhere.
--
-- A distance is the square root rounded down, by 64 digits in base 4, which is enough for squares below
-- 2^128; the tracker's carrot moves along a line with the quotients rounded.
--
-- Fuel: Farm.Loop.rounds, Bridge.poll, the loops of Mission.Flight and those of Reset run on fuel. A
-- loop with a wall-clock deadline needs one round more than the ticks that pass until then, which the
-- theorems of Farm.Loop, Bridge.Ends, Mission.Flight.Returns and Reset.Ends state. Every other loop is
-- structural. Telemetry and clocks are functions of the iteration.
-- The severity on a ramp is rounded to a millionth towards zero.
--
-- A child process either obeys terminate() and SIGKILL or not, as its record says; what a runner calls
-- to fly may raise.
--
-- Parameters: numpy's generator (what it documents of a draw is a hypothesis) and its tilt, mission files,
-- the shell scripts and what they do to a machine, the clock, the vehicle's telemetry, what children do
-- while the farm sleeps, the network of the learned policy, the reading of files, the digest of a spec,
-- the numerics of the derived feature, and what the runner calls of ROS, Gazebo and the logger.
-- Not modelled: ROS and Gazebo transport, the format of the files, the conversion of an
-- attitude to angles, network training, tensor environments, command lines and analysis scripts, and
-- the copies of px4_msgs and px4_ros_com.
pub mod Base
pub mod Features
pub mod Policy
pub mod Episode
pub mod Farm
pub mod Faults
pub mod Metrics
pub mod Mission
pub mod Reset
pub mod Runner
pub mod Simulation
pub mod Bridge
pub mod Tests
